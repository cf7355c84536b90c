-- ===== src/Context.antt =====
-- struct ftdi_context of include/sgftdi/ftdi.h. Pointers to objects of libusb are addresses, `none`
-- is NULL. `readbuffer` is the malloc'ed buffer, of `readbuffer_chunksize` bytes.
mod Chip
mod EepromStruct
pub use Chip.*
pub use EepromStruct.*
use EepromStruct.{Eeprom}
use Chip.{ChipType, DetachMode}
use libsgftdi.Base.{ℕ, ℤ, Option, String}

pub record Context : Type 0 where
  pub usb_ctx : Option ℕ
  pub usb_dev : Option ℕ
  pub usb_read_timeout : ℕ
  pub usb_write_timeout : ℕ
  pub chip_type : ChipType
  pub baudrate : ℤ
  pub bitbang_enabled : ℕ
  pub readbuffer : Option (ℕ → ℕ)
  pub readbuffer_offset : ℕ
  pub readbuffer_remaining : ℕ
  pub readbuffer_chunksize : ℕ
  pub writebuffer_chunksize : ℕ
  pub max_packet_size : ℕ
  pub interface : ℕ
  pub index : ℕ
  pub in_ep : ℕ
  pub out_ep : ℕ
  pub bitbang_mode : ℕ
  pub eeprom : Option Eeprom
  pub error_str : Option String
  pub module_detach_mode : DetachMode
