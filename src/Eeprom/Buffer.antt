-- ===== src/Eeprom/Buffer.antt =====
-- The image and the strings of the EEPROM structure as the caller sees them: ftdi_get_eeprom_buf,
-- ftdi_set_eeprom_buf, ftdi_set_eeprom_user_data and ftdi_eeprom_get_strings. The sizes of buffers are
-- natural numbers.
use libsgftdi.Base.{
  ℕ, ℤ, pos, minus, ltb_ℤ, ltb, ◌-◌, Bool, true, false, ◌||◌, if◌then◌else◌, Option, none, some,
  List, get_or, store, memcpy, String,
}
use libsgftdi.Context.{Eeprom}
use libsgftdi.Usb.{
  Function, Action, ◌>>=◌, ◌>>◌, body, body_out, pure, update, error_if, error_return,
}

abbrev is_null : {A : Type 0} → Option A → Bool
is_null none = true
is_null (some a) = false

-- Only up to FTDI_MAX_EEPROM_SIZE bytes are copied.
abbrev pub capped : ℕ → ℕ
capped size = if ltb 256 size then 256 else size

-- A buffer of the caller: its size and its bytes.
pub record Buffer : Type 0 where
  pub size : ℕ
  pub at : ℕ → ℕ

-- strncpy(b, l, b.size), which fills up with zeros, and the NUL at the end if there is room for it.
abbrev pub strncpy : List ℕ → Buffer → Buffer
strncpy l b =
    let copied : ℕ → ℕ = λ k. if ltb k b.size then get_or l k 0 else b.at k in
    record b { at = if ltb 0 b.size then store (b.size - 1) 0 copied else copied }

-- A string of the structure copied to a buffer, if one is given. `none` is a crash: strncpy of NULL.
abbrev pub copy_string : Option (List ℕ) → Option Buffer → Option (Option Buffer)
copy_string l none = some none
copy_string none (some b) = none
copy_string (some l) (some b) = some (some (strncpy l b))

-- What ftdi_eeprom_get_strings comes to.
pub data Fetched : Type 0 where
  crashed : Fetched
  refused_with : ℤ → Fetched
  fetched : Option Buffer → Option Buffer → Option Buffer → Fetched

abbrev strings_of : Eeprom → Option Buffer → Option Buffer → Option Buffer → Fetched
strings_of e manufacturer product serial = elim (copy_string e.manufacturer manufacturer) [
  | none ↦ crashed
  | some m ↦ elim (copy_string e.product product) [
    | none ↦ crashed
    | some p ↦ elim (copy_string e.serial serial) [ none ↦ crashed | some s ↦ fetched m p s ]
  ]
]

module _ {W : Type 0} where
  abbrev eeprom_of : ℤ → String → Action W Eeprom
  eeprom_of r str s = elim s.ftdi [
    | none ↦ error_return r str s
    | some c ↦ elim c.eeprom [ none ↦ error_return r str s | some e ↦ pure e s ]
  ]

  abbrev set_structure : Eeprom → Action W (Unit {0})
  set_structure e = update λ c. record c { eeprom = some e }

  -- The buffer after the call is the result.
  unfoldable pub get_eeprom_buf : Option (ℕ → ℕ) → ℕ → Function W (ℤ × Option (ℕ → ℕ))
  get_eeprom_buf buf size = body_out do
    e ← eeprom_of (minus 1) "No appropriate structure"
    error_if (is_null buf || ltb_ℤ (pos size) e.size) (minus 1) "Not enough room to store eeprom"
    pure (elim buf [ none ↦ e.buf | some m ↦ memcpy 0 e.buf 0 (capped size) m ])

  unfoldable pub set_eeprom_buf : Option (ℕ → ℕ) → ℕ → Function W ℤ
  set_eeprom_buf buf size = body do
    e ← eeprom_of (minus 1) "No appropriate structure"
    elim buf [
      | none ↦ error_return (minus 1) "No appropriate structure"
      | some m ↦ set_structure (record e { buf = memcpy 0 m 0 (capped size) e.buf }) >> pure (pos 0)
    ]

  unfoldable pub set_eeprom_user_data : Option (List ℕ) → ℤ → Function W ℤ
  set_eeprom_user_data buf size = body do
    e ← eeprom_of (minus 1) "No appropriate structure"
    error_if (is_null buf) (minus 1) "No appropriate structure"
    set_structure (record e { user_data_size = size; user_data = buf })
    pure (pos 0)

  unfoldable pub eeprom_get_strings :
      Option Buffer → Option Buffer → Option Buffer → Function W Fetched
  eeprom_get_strings manufacturer product serial s = elim s.ftdi [
    | none ↦ (refused_with (minus 1), s)
    | some c ↦ elim c.eeprom [
      | none ↦ (
        refused_with (minus 2),
        record s { ftdi = some (record c { error_str = some "No struct ftdi_eeprom" }) },
      )
      | some e ↦ (strings_of e manufacturer product serial, s)
    ]
  ]
