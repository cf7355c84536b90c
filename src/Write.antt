-- ===== src/Write.antt =====
-- Writing (src/ftdi.c): ftdi_write_data, which offers its bytes to the device in chunks.
mod Data
pub mod Chunks
pub mod Pieces
pub mod Loop
pub mod Whole
unfoldable pub use Data.*
