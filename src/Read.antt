-- ===== src/Read.antt =====
-- Reading (src/ftdi.c): ftdi_read_data, which takes the two status bytes out of every packet of a
-- transfer and keeps what the caller did not ask for. A negative size, and a packet size of 1, for
-- which C's behaviour is undefined, are left out: sizes are natural numbers.
mod Buffer
mod Data
pub mod Payload
pub mod Compact
pub mod Strip
pub mod Transfer
pub mod Deliver
pub mod Loop
pub mod Stream
unfoldable pub use Buffer.*
unfoldable pub use Data.*
