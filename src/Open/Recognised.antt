-- ===== src/Open/Recognised.antt =====
-- The chip type that ftdi_usb_open_dev guesses, and the release that ftdi_eeprom_initdefaults chooses.
use libsgftdi.Base.{ℕ, ◌≡◌, ◌<◌, pos, arith, Option, List}
use libsgftdi.Context.{ChipType}
use libsgftdi.Open.Enumeration.{Descriptor}
use libsgftdi.Open.Dev.{chip_of}
use libsgftdi.Eeprom.Defaults.{default_fields, release_of}

-- A device that shows the release number of the default structure for a type of chip, and has a
-- serial number, is taken for that type when it is opened, whatever the type was before.
pub chip_of-default_fields :
    (kind before : ChipType) (m p s : Option (List ℕ)) (desc : Descriptor)
    → 0 < desc.serial_number
    → (default_fields kind m p s).release_number ≡ pos desc.bcd_device
    → chip_of desc before ≡ kind
unfolding chip_of default_fields release_of
chip_of-default_fields ChipType.type_am before m p s desc h same = ground arith
chip_of-default_fields ChipType.type_bm before m p s desc h same = ground arith
chip_of-default_fields ChipType.type_2232c before m p s desc h same = ground arith
chip_of-default_fields ChipType.type_r before m p s desc h same = ground arith
chip_of-default_fields ChipType.type_2232h before m p s desc h same = ground arith
chip_of-default_fields ChipType.type_4232h before m p s desc h same = ground arith
chip_of-default_fields ChipType.type_232h before m p s desc h same = ground arith
chip_of-default_fields ChipType.type_230x before m p s desc h same = ground arith
