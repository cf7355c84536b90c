-- ===== src/Eeprom/Bytes.antt =====
-- How ftdi_eeprom_build writes an `int` into its image of bytes, and the constants of
-- include/sgftdi/ftdi.h for the fields of the image.
use libsgftdi.Base.{
  ℕ, zero, suc, ◌-◌, ◌/◌, ◌%◌, ℤ, pos, negsuc, word, is_nonzero, store, bit_or, bit_and,
}
use libsgftdi.Base.{if◌then◌else◌}

-- (unsigned char) z, and (unsigned char) (z >> 8)
abbrev pub byte : ℤ → ℕ
byte z = word z % 256

abbrev pub byte_8 : ℤ → ℕ
byte_8 z = word z / 256 % 256

-- output[k] |= v
unfoldable pub or_at : ℕ → ℕ → (ℕ → ℕ) → ℕ → ℕ
or_at k v output = store k (bit_or (output k) v) output

-- output[k] &= ~mask
unfoldable pub clear_at : ℕ → ℕ → (ℕ → ℕ) → ℕ → ℕ
clear_at k mask output = store k (bit_and (output k) (255 - mask)) output

-- if (z) output[k] |= mask; else output[k] &= ~mask;
unfoldable pub flag : ℤ → ℕ → ℕ → (ℕ → ℕ) → ℕ → ℕ
flag z k mask output = if is_nonzero z then or_at k mask output else clear_at k mask output

-- if (z) output[k] |= mask;
unfoldable pub flag_on : ℤ → ℕ → ℕ → (ℕ → ℕ) → ℕ → ℕ
flag_on z k mask output = if is_nonzero z then or_at k mask output else output

-- size - 1 as the mask that wraps an address
abbrev pub size_mask : ℤ → ℕ
size_mask (pos zero) = 4294967295
size_mask (pos (suc n)) = n
size_mask (negsuc n) = word (negsuc (suc n))

abbrev pub use_serial_num : ℕ
use_serial_num = 0x08

abbrev pub use_usb_version_bit : ℕ
use_usb_version_bit = 0x10

abbrev pub suspend_dbus7_bit : ℕ
suspend_dbus7_bit = 0x80

abbrev pub driver_vcp : ℕ
driver_vcp = 0x08

abbrev pub driver_vcph : ℕ
driver_vcph = 0x10

abbrev pub high_current_drive : ℕ
high_current_drive = 0x10

abbrev pub high_current_drive_r : ℕ
high_current_drive_r = 0x04

abbrev pub slow_slew : ℕ
slow_slew = 4

abbrev pub is_schmitt : ℕ
is_schmitt = 8

abbrev pub channel_is_rs485 : ℕ
channel_is_rs485 = 0x10

abbrev pub power_save_disable_h : ℕ
power_save_disable_h = 0x80
