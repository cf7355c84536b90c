-- ===== src/Eeprom/Decode.antt =====
-- ftdi_eeprom_decode without its output on stdout. With a size below 2 the code reads the checksum from
-- the fields before its buffer. A character is its byte, and a C string ends at a zero.
use libsgftdi.Base.{◌^◌, ◌%◌, word, sub_ℕ, negsuc, ltb}
use libsgftdi.Base.{ℕ, zero, suc, ◌+◌, ◌-◌, ◌*◌, ◌/◌, ℤ, pos, minus, pos_part, ltb, ◌==◌, not}
use libsgftdi.Base.{if◌then◌else◌, Bool, Option, none, some, bit_and, ◌<<<◌, List, [], ◌∷◌}
use libsgftdi.Context.{Eeprom, ChipType}
use libsgftdi.Usb.{Host, Function, Action, ◌>>=◌, ◌>>◌, body, pure, context, error_if, outside}
use libsgftdi.Eeprom.Bytes.{size_mask, use_serial_num, use_usb_version_bit}
use libsgftdi.Eeprom.Specific.{bit, word_from, decode_specific}
use libsgftdi.Eeprom.Build.{mix, word_at, skipped, structure_of, put}

unfoldable pub decode_common : Eeprom → Eeprom
decode_common e =
    let buf = e.buf in
    record e {
      vendor_id = word_from buf 0x02;
      product_id = word_from buf 0x04;
      release_number = word_from buf 0x06;
      self_powered = bit (buf 0x08) 0x40;
      remote_wakeup = bit (buf 0x08) 0x20;
      max_power = pos (2 * buf 0x09);
      in_is_isochronous = bit (buf 0x0a) 0x01;
      out_is_isochronous = bit (buf 0x0a) 0x02;
      suspend_pull_downs = bit (buf 0x0a) 0x04;
      use_serial = bit (buf 0x0a) use_serial_num;
      use_usb_version = bit (buf 0x0a) use_usb_version_bit;
      usb_version = word_from buf 0x0c;
    }

-- The characters of a C string, which ends at a zero.
abbrev pub c_string : List ℕ → List ℕ
c_string [] = []
c_string (x ∷ l) = if x == 0 then [] else x ∷ c_string l

-- buf[2*j+i+2] for `rounds` values of `j`
abbrev pub chars : (ℕ → ℕ) → ℕ → ℕ → ℕ → List ℕ
chars buf i zero j = []
chars buf i (suc rounds) j = buf (2 * j + i + 2) ∷ chars buf i rounds (j + 1)

-- The string whose place is in buf[k] and whose length is in buf[k + 1].
unfoldable pub string_at : Eeprom → ℕ → Bool → Option (List ℕ)
string_at e k granted =
    if granted
    then some
        (c_string (chars e.buf (bit_and (e.buf k) (size_mask e.size)) (e.buf (k + 1) / 2 - 1) 0))
    else none

unfoldable pub with_strings : Option (List ℕ) → Option (List ℕ) → Option (List ℕ) → Eeprom → Eeprom
with_strings manufacturer product serial e = record e {
  manufacturer = manufacturer;
  product = product;
  serial = serial;
}

-- checksum over the words from `i` up to `n`, with `rounds` left
unfoldable pub checksum_of : ℕ → ChipType → (ℕ → ℕ) → ℕ → ℕ → ℕ → ℕ
checksum_of zero kind buf n i checksum = checksum
checksum_of (suc rounds) kind buf n i checksum =
    let j = skipped kind i in
    let rest = checksum_of rounds kind buf n (j + 1) (mix (word_at buf j) checksum) in
    if ltb i n then rest else checksum

-- Before the buffer stands `chip`, and before that `size`, each with its low byte first. A size below
-- -6, which no function sets, is left out.
abbrev pub byte_before : Eeprom → ℕ → ℕ
byte_before e k =
    if ltb k 4 then word e.chip / 256 ^ (3 - k) % 256 else word e.size / 256 ^ (7 - k) % 256

-- buf[z]
abbrev pub byte_at : Eeprom → ℤ → ℕ
byte_at e (pos k) = e.buf k
byte_at e (negsuc k) = byte_before e k

-- z - n
abbrev pub less : ℤ → ℕ → ℤ
less (pos m) n = sub_ℕ m n
less (negsuc m) n = negsuc (m + n)

unfoldable pub is_intact : ChipType → Eeprom → Bool
is_intact kind e =
    let n = pos_part e.size / 2 - 1 in
    byte_at e (less e.size 2) + (byte_at e (less e.size 1) <<< 8)
    == checksum_of n kind e.buf n 0 0xaaaa

module _ {W : Type 0} (host : Host W) where
  -- malloc of the string at buf[k], and its characters; an empty field is NULL.
  abbrev pub string_of : Eeprom → ℕ → Action W (Option (List ℕ))
  string_of e k = allocated e k (e.buf (k + 1) / 2)
    where
      allocated : Eeprom → ℕ → ℕ → Action W (Option (List ℕ))
      allocated e k zero = pure none
      allocated e k (suc n) = do
        granted ← outside (host.alloc (suc n))
        pure (string_at e k granted)

  unfoldable pub eeprom_decode : Function W ℤ
  eeprom_decode = body do
    c ← context (minus 1) "No context"
    e ← structure_of (minus 1) c
    let e = decode_common e
    manufacturer ← string_of e 0x0e
    product ← string_of e 0x10
    serial ← string_of e 0x12
    let e = with_strings manufacturer product serial e
    put e
    error_if (not (is_intact c.chip_type e)) (minus 1) "EEPROM checksum error"
    put (decode_specific c.chip_type e)
    pure (pos 0)
