-- ===== src/Eeprom/Access.antt =====
-- Words of the EEPROM: ftdi_read_eeprom_location, ftdi_write_eeprom_location and ftdi_erase_eeprom.
-- Addresses are natural numbers; a NULL `eeprom` pointer crashes the code and is left alone here.
use libsgftdi.Base.{
  ℕ, ℤ, pos, minus, is_negative, is_nonzero, eq_ℤ, not, ltb, ◌==◌, Option, none, some,
}
use libsgftdi.Base.{true, false, if◌then◌else◌, bit_or, bit_and, ◌<<<◌, ◌>>>◌, get_or, Bool}
use libsgftdi.Context.{Context, ChipType}
use libsgftdi.Usb.{Host, Function, Action, ◌>>=◌, ◌>>◌, body, body_out, opened, pure, update}
use libsgftdi.Usb.{error_if, error_return, call, vendor_in, vendor_out}

-- The byte of the memory that holds the type of the memory.
abbrev pub chip_type_location : ChipType → Option ℕ
chip_type_location ChipType.type_bm = some 0x14
chip_type_location ChipType.type_2232c = some 0x14
chip_type_location ChipType.type_2232h = some 0x18
chip_type_location ChipType.type_4232h = some 0x18
chip_type_location ChipType.type_232h = some 0x1e
chip_type_location _ = none

-- type == TYPE_R || type == TYPE_230X, which have the memory on the chip.
abbrev pub is_internal : ChipType → Bool
is_internal ChipType.type_r = true
is_internal ChipType.type_230x = true
is_internal _ = false

-- ftdi->eeprom->chip = chip
abbrev pub with_chip : ℤ → Context → Context
with_chip chip c = record c {
  eeprom = elim c.eeprom [ none ↦ none | some e ↦ some (record e { chip = chip }) ];
}

-- #define MAGIC 0x55aa
abbrev pub magic : ℕ
magic = 0x55aa

abbrev word_of : Option ℕ → ℕ
word_of none = 0
word_of (some v) = v

module _ {W : Type 0} (host : Host W) where
  unfoldable pub read_eeprom_location : ℕ → Function W (ℤ × Option ℕ)
  read_eeprom_location eeprom_addr = body_out do
    (c, dev) ← opened (minus 2) "USB device unavailable"
    (r, buf) ← vendor_in host c dev 0x90 0 eeprom_addr 2
    error_if (not (eq_ℤ r (pos 2))) (minus 1) "reading eeprom failed"
    pure (bit_or (bit_and 0xff (get_or buf 0 0)) (get_or buf 1 0 <<< 8))

  abbrev location : ChipType → Action W ℕ
  location type = elim (chip_type_location type) [
    | none ↦ error_return (minus 4) "Device can't access unprotected area"
    | some l ↦ pure l
  ]

  unfoldable pub write_eeprom_location : ℕ → ℕ → Function W ℤ
  write_eeprom_location eeprom_addr eeprom_val = body do
    (c, dev) ← opened (minus 2) "USB device unavailable"
    error_if (ltb eeprom_addr 0x80) (minus 2)
        "Invalid access to checksum protected area  below 0x80"
    l ← location c.chip_type
    (ret, chip_type) ← call (read_eeprom_location (l >>> 1))
    error_if (is_nonzero ret) (minus 5) "Reading failed"
    error_if (not (bit_and (word_of chip_type) 0xff == 0x66)) (minus 6) "EEPROM is not of 93x66"
    r ← vendor_out host c dev 0x91 eeprom_val eeprom_addr
    error_if (is_nonzero r) (minus 1) "unable to write eeprom"
    pure (pos 0)

  -- A word that must be read.
  abbrev word_at : ℕ → Action W ℕ
  word_at eeprom_addr = do
    (ret, eeprom_value) ← call (read_eeprom_location eeprom_addr)
    error_if (is_nonzero ret) (minus 4) "Reading failed"
    pure (word_of eeprom_value)

  abbrev detect_66 : Action W ℤ
  detect_66 = do
    eeprom_value ← word_at 0xc0
    pure (if eeprom_value == magic then pos 0x66 else minus 1)

  abbrev detect_56 : Action W ℤ
  detect_56 = do
    eeprom_value ← word_at 0x40
    if eeprom_value == magic then pure (pos 0x56) else detect_66

  -- The chip by the place where the magic word is found.
  abbrev pub detect : Action W ℤ
  detect = do
    eeprom_value ← word_at 0x00
    if eeprom_value == magic then pure (pos 0x46) else detect_56

  abbrev erase_external : Context → ℕ → Action W ℤ
  erase_external c dev = do
    r ← vendor_out host c dev 0x92 0 0
    error_if (is_negative r) (minus 1) "unable to erase eeprom"
    r ← vendor_out host c dev 0x91 magic 0xc0
    error_if (is_nonzero r) (minus 3) "Writing magic failed"
    chip ← detect
    update (with_chip chip)
    r ← vendor_out host c dev 0x92 0 0
    error_if (is_negative r) (minus 1) "unable to erase eeprom"
    pure (pos 0)

  abbrev erase_at : Context → ℕ → Action W ℤ
  erase_at c dev =
      if is_internal c.chip_type
      then update (with_chip (pos 0)) >> pure (pos 0)
      else erase_external c dev

  unfoldable pub erase_eeprom : Function W ℤ
  erase_eeprom = body do (c, dev) ← opened (minus 2) "USB device unavailable"; erase_at c dev
