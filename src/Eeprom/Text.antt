-- ===== src/Eeprom/Text.antt =====
-- The strings of the image in ftdi_eeprom_build, which stand behind each other and wrap around the
-- memory.
use libsgftdi.Base.{
  ℕ, ◌+◌, ◌*◌, ◌%◌, store, bit_or, bit_and, List, [], ◌∷◌, take, length, Option, none, some,
}
use libsgftdi.Base.{ltb, if◌then◌else◌}
use libsgftdi.Context.{Eeprom, ChipType, type_value}
use libsgftdi.Eeprom.Bytes.{byte}

-- The variable `i` of the code, an unsigned char, and the image.
pub record Cursor : Type 0 where
  pub at : ℕ
  pub output : ℕ → ℕ

-- output[i & eeprom_size_mask] = v, i++;
abbrev pub emit : ℕ → ℕ → Cursor → Cursor
emit mask v c = record { at = (c.at + 1) % 256; output = store (bit_and c.at mask) v c.output }

-- strlen, kept in an unsigned char
abbrev pub size_of : Option (List ℕ) → ℕ
size_of none = 0
size_of (some l) = length l % 256

-- The characters that the loop writes.
abbrev pub text : Option (List ℕ) → List ℕ
text none = []
text (some l) = take (length l % 256) l

unfoldable pub emit_chars : ℕ → List ℕ → Cursor → Cursor
emit_chars mask [] c = c
emit_chars mask (x ∷ l) c = emit_chars mask l (emit mask 0x00 (emit mask (x % 256) c))

-- A string descriptor: its length, its type, its characters.
unfoldable pub emit_string : ℕ → Option (List ℕ) → Cursor → Cursor
emit_string mask s c =
    emit_chars mask (text s) (emit mask 0x03 (emit mask ((size_of s * 2 + 2) % 256) c))

-- Where the strings start.
abbrev pub strings_start : ChipType → ℕ
strings_start ChipType.type_am = 0x94
strings_start ChipType.type_bm = 0x94
strings_start ChipType.type_2232c = 0x96
strings_start ChipType.type_r = 0x98
strings_start ChipType.type_2232h = 0x9a
strings_start ChipType.type_4232h = 0x9a
strings_start ChipType.type_232h = 0xa0
strings_start ChipType.type_230x = 0xa0

abbrev pub set_byte : ℕ → ℕ → Cursor → Cursor
set_byte k v c = record c { output = store k (v % 256) c.output }

-- Legacy port name and PnP fields for FT2232 and newer chips
abbrev pub legacy : ChipType → ℕ → Eeprom → Cursor → Cursor
legacy kind mask e c =
    if ltb 1 (type_value kind)
    then emit mask (byte e.is_not_pnp) (emit mask 0x03 (emit mask 0x02 c))
    else c

-- A string, its length in output[k], and the place of the next one in output[k + 1].
unfoldable pub put_string : ℕ → ℕ → Option (List ℕ) → Cursor → Cursor
put_string mask k s c =
    let c = emit_string mask s c in
    let c = set_byte k (size_of s * 2 + 2) c in set_byte (k + 1) (bit_or c.at 0x80) c

-- The three strings and the fields behind them, with the places and lengths in 0x0E to 0x13.
unfoldable pub put_strings : ChipType → ℕ → Eeprom → (ℕ → ℕ) → ℕ → ℕ
put_strings kind mask e output =
    let start = strings_start kind in
    let c : Cursor = record { at = start; output = store 0x0e start output } in
    let c = put_string mask 0x0f e.manufacturer c in
    let c = put_string mask 0x11 e.product c in
    let c = emit_string mask e.serial c in
    let c = legacy kind mask e c in (set_byte 0x13 (size_of e.serial * 2 + 2) c).output
