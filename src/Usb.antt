-- ===== src/Usb.antt =====
-- libusb and the allocator as a parameter, and the functions of src/ftdi.c as programs over the
-- state: the caller's context, which may be NULL, and the outside world.
mod Libusb
mod Monad
mod Request
pub use Libusb.*
pub use Monad.*
pub use Request.*
