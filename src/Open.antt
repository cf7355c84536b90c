-- ===== src/Open.antt =====
-- Finding and opening devices (src/ftdi.c).
pub mod Enumeration
pub mod Find
pub mod Dev
pub mod Choose
pub mod Listed
pub mod Closes
pub mod Safe
pub mod Recognised
pub mod Strings
pub mod Describe
pub mod Spelled
pub mod Steps
pub mod Handle
