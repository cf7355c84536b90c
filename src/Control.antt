-- ===== src/Control.antt =====
-- The control requests of src/ftdi.c.
mod Flush
mod Line
mod Mode
pub mod Command
pub mod Wire
pub mod Guard
pub mod Exchange
unfoldable pub use Flush.*
unfoldable pub use Line.*
unfoldable pub use Mode.*
