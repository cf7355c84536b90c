-- ===== src/Eeprom/Defaults.antt =====
-- ftdi_eeprom_initdefaults and ftdi_eeprom_set_strings. A string that is freed is replaced at once.
use libsgftdi.Base.{
  ℕ, ◌+◌, ℤ, pos, minus, List, [], ◌∷◌, length, Option, none, some, store, ltb, if◌then◌else◌,
}
use libsgftdi.Context.{Context, ChipType, Eeprom, zeroed}
use libsgftdi.Usb.{Host, Function, Action, ◌>>=◌, ◌>>◌, body, pure, outside, context, error_return}
use libsgftdi.Eeprom.Build.{structure_of, put}

abbrev pub product_number : ChipType → ℕ
product_number ChipType.type_am = 0x6001
product_number ChipType.type_bm = 0x6001
product_number ChipType.type_r = 0x6001
product_number ChipType.type_4232h = 0x6011
product_number ChipType.type_232h = 0x6014
product_number ChipType.type_230x = 0x6015
product_number ChipType.type_2232c = 0x6010
product_number ChipType.type_2232h = 0x6010

unfoldable pub release_of : ChipType → ℕ
release_of ChipType.type_am = 0x0200
release_of ChipType.type_bm = 0x0400
release_of ChipType.type_2232c = 0x0500
release_of ChipType.type_r = 0x0600
release_of ChipType.type_2232h = 0x0700
release_of ChipType.type_4232h = 0x0800
release_of ChipType.type_232h = 0x0900
release_of ChipType.type_230x = 0x1000

abbrev usb_version_of : ChipType → ℕ
usb_version_of ChipType.type_am = 0x0101
usb_version_of _ = 0x0200

-- The names of the chips, in ASCII.
abbrev default_product : ChipType → List ℕ
default_product ChipType.type_am = 65 ∷ 77 ∷ []
default_product ChipType.type_bm = 66 ∷ 77 ∷ []
default_product ChipType.type_2232c = 68 ∷ 117 ∷ 97 ∷ 108 ∷ 32 ∷ 82 ∷ 83 ∷ 50 ∷ 51 ∷ 50 ∷ []
default_product ChipType.type_r =
    70 ∷ 84 ∷ 50 ∷ 51 ∷ 50 ∷ 82 ∷ 32 ∷ 85 ∷ 83 ∷ 66 ∷ 32 ∷ 85 ∷ 65 ∷ 82 ∷ 84 ∷ []
default_product ChipType.type_2232h =
    68 ∷ 117 ∷ 97 ∷ 108 ∷ 32 ∷ 82 ∷ 83 ∷ 50 ∷ 51 ∷ 50 ∷ 45 ∷ 72 ∷ 83 ∷ []
default_product ChipType.type_4232h = 70 ∷ 84 ∷ 52 ∷ 50 ∷ 51 ∷ 50 ∷ 72 ∷ []
default_product ChipType.type_232h =
    83 ∷ 105 ∷ 110 ∷ 103 ∷ 108 ∷ 101 ∷ 45 ∷ 82 ∷ 83 ∷ 50 ∷ 51 ∷ 50 ∷ 45 ∷ 72 ∷ 83 ∷ []
default_product ChipType.type_230x =
    70 ∷ 84 ∷ 50 ∷ 51 ∷ 48 ∷ 88 ∷ 32 ∷ 66 ∷ 97 ∷ 115 ∷ 105 ∷ 99 ∷ 32 ∷ 85 ∷ 65 ∷ 82 ∷ 84 ∷ []

-- The size, the power and the CBUS functions, by the enumerations for CBUS pins of ftdi.h.
abbrev fitted : ChipType → Eeprom → Eeprom
fitted ChipType.type_r e = record e {
  max_power = pos 90;
  size = pos 0x80;
  cbus_function =
      store 4 (pos 5)
        (store 3 (pos 1) (store 2 (pos 0) (store 1 (pos 2) (store 0 (pos 3) e.cbus_function))));
}
fitted ChipType.type_230x e = record e {
  max_power = pos 90;
  size = pos 0x100;
  cbus_function =
      store 3 (pos 5) (store 2 (pos 1) (store 1 (pos 2) (store 0 (pos 9) e.cbus_function)));
}
fitted ChipType.type_232h e = record e {
  cbus_function = λ i. if ltb i 10 then pos 0 else e.cbus_function i;
  size = minus 1;
}
fitted _ e = record e { size = minus 1 }

unfoldable pub default_fields :
    ChipType → Option (List ℕ) → Option (List ℕ) → Option (List ℕ) → Eeprom
default_fields kind manufacturer product serial = fitted kind (record zeroed {
  vendor_id = pos 0x0403;
  use_serial = pos 1;
  product_id = pos (product_number kind);
  usb_version = pos (usb_version_of kind);
  max_power = pos 100;
  manufacturer = manufacturer;
  product = product;
  serial = serial;
  release_number = pos (release_of kind);
})

abbrev given_or : List ℕ → Option (List ℕ) → List ℕ
given_or l none = l
given_or l (some given) = given

module _ {W : Type 0} (host : Host W) where
  -- malloc(strlen(s) + 1) and strcpy; NULL if there is no memory.
  abbrev copied : List ℕ → Action W (Option (List ℕ))
  copied l = do
    granted ← outside (host.alloc (length l + 1))
    pure (if granted then some l else none)

  abbrev copy_given : Option (List ℕ) → Action W (Option (List ℕ))
  copy_given none = pure none
  copy_given (some l) = copied l

  -- if (ftdi->usb_dev == NULL)
  abbrev connected : Context → Action W (Unit {0})
  connected c = elim c.usb_dev [
    | none ↦ error_return (minus 3) "No connected device or device not yet opened"
    | some dev ↦ pure tt
  ]

  unfoldable pub eeprom_initdefaults :
      Option (List ℕ) → Option (List ℕ) → Option (List ℕ) → Function W ℤ
  eeprom_initdefaults manufacturer product serial = body do
    c ← context (minus 1) "No struct ftdi_context"
    e ← structure_of (minus 2) c
    put zeroed
    connected c
    manufacturer ← copy_given manufacturer
    product ← copied (given_or (default_product c.chip_type) product)
    serial ← copy_given serial
    put (default_fields c.chip_type manufacturer product serial)
    pure (pos 0)

  -- A string that is not given stays as it is.
  abbrev replaced : Option (List ℕ) → Option (List ℕ) → Action W (Option (List ℕ))
  replaced old none = pure old
  replaced old (some l) = copied l

  abbrev serial_used : ℤ → Option (List ℕ) → Option (List ℕ) → ℤ
  serial_used old none new = old
  serial_used old (some l) none = old
  serial_used old (some l) (some new) = pos 1

  unfoldable pub eeprom_set_strings :
      Option (List ℕ) → Option (List ℕ) → Option (List ℕ) → Function W ℤ
  eeprom_set_strings manufacturer product given = body do
    c ← context (minus 1) "No struct ftdi_context"
    e ← structure_of (minus 2) c
    connected c
    manufacturer ← replaced e.manufacturer manufacturer
    product ← replaced e.product product
    serial ← replaced e.serial given
    put (record e {
      manufacturer = manufacturer;
      product = product;
      serial = serial;
      use_serial = serial_used e.use_serial given serial;
    })
    pure (pos 0)
