-- ===== src/Device.antt =====
-- The life of a context (src/ftdi.c): ftdi_init, ftdi_set_interface, the chunk sizes, and closing.
mod Interface
mod Chunksize
mod Life
pub mod Extended
pub mod Borrowed
pub mod Channel
pub mod Ready
pub mod Closed
unfoldable pub use Interface.*
unfoldable pub use Chunksize.*
unfoldable pub use Life.*
