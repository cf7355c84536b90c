-- ===== src/Eeprom.antt =====
-- The EEPROM (src/ftdi.c).
pub mod Name
pub mod Get
pub mod Set
pub mod Field
pub mod Access
pub mod Memory
pub mod Image
pub mod Written
pub mod Bytes
pub mod Mode
pub mod Chips
pub mod Text
pub mod Build
pub mod Specific
pub mod Decode
pub mod Checksum
pub mod Header
pub mod Wrap
pub mod Roundtrip
pub mod Identity
pub mod Defaults
pub mod Load
pub mod Guess
pub mod Loaded
pub mod Reread
pub mod Buffer
pub mod ChipId
pub mod Fetched
