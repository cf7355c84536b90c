-- ===== src/Eeprom/Build.antt =====
-- ftdi_eeprom_build. A size below 2, for which the code writes outside of its buffer, is left out;
-- sizes are at most 256. Of user data at a negative address only what falls into the buffer is modelled.
use libsgftdi.Base.{ℕ, zero, suc, ◌+◌, ◌-◌, ◌*◌, ◌/◌, ◌%◌, ℤ, pos, minus, sub_ℕ, is_negative, eq_ℤ}
use libsgftdi.Base.{pos_part, neg_part, ltb, leb, ◌==◌, ◌&&◌, ◌||◌, not, if◌then◌else◌}
use libsgftdi.Base.{Bool, false, none, some, store, memset, memcpy, bytes, bit_or}
use libsgftdi.Base.{bit_xor, u16, ◌<<<◌, ◌>>>◌}
use libsgftdi.Context.{Context, Eeprom, ChipType, type_value}
use libsgftdi.Usb.{Host, Function, Action, ◌>>=◌, ◌>>◌, body, pure, call, update, context, error_if}
use libsgftdi.Usb.{error_return}
use libsgftdi.Eeprom.Access.{read_eeprom_location}
use libsgftdi.Eeprom.Bytes.{byte, byte_8, flag, flag_on, size_mask, use_serial_num}
use libsgftdi.Eeprom.Text.{size_of, put_strings}
use libsgftdi.Eeprom.Chips.{put_specific}

-- The size of the memory, chosen by its type if it is not known.
unfoldable pub sized : Eeprom → Eeprom
sized e =
    if eq_ℤ e.size (minus 1)
    then if eq_ℤ e.chip (pos 0x56) || eq_ℤ e.chip (pos 0x66)
      then record e { size = pos 0x100 }
      else record e { size = pos 0x80 }
    else e

-- The base size for strings.
abbrev pub base_area : ChipType → ℕ
base_area ChipType.type_am = 96
base_area ChipType.type_bm = 96
base_area ChipType.type_r = 96
base_area ChipType.type_2232c = 90
base_area ChipType.type_230x = 88
base_area ChipType.type_2232h = 86
base_area ChipType.type_4232h = 86
base_area ChipType.type_232h = 80

abbrev pub strings_size : Eeprom → ℕ
strings_size e = (size_of e.manufacturer + size_of e.product + size_of e.serial) * 2

unfoldable pub user_area_size : ChipType → Eeprom → ℤ
user_area_size kind e = sub_ℕ (base_area kind) (strings_size e)

-- empty eeprom
abbrev pub emptied : ChipType → (ℕ → ℕ) → ℕ → ℕ
emptied ChipType.type_230x buf = memset 0xa0 0 (256 - 0xa0) (memset 0 0 0x80 buf)
emptied _ buf = memset 0 0 256 buf

-- (unsigned char) (z / 2), which rounds towards 0
abbrev pub half_byte : ℤ → ℕ
half_byte z = byte (sub_ℕ (pos_part z / 2) (neg_part z / 2))

-- Bytes and Bits set for all Types
unfoldable pub put_header : Eeprom → (ℕ → ℕ) → ℕ → ℕ
put_header e output =
    let output = store 0x02 (byte e.vendor_id) output in
    let output = store 0x03 (byte_8 e.vendor_id) output in
    let output = store 0x04 (byte e.product_id) output in
    let output = store 0x05 (byte_8 e.product_id) output in
    let output = store 0x06 (byte e.release_number) output in
    let output = store 0x07 (byte_8 e.release_number) output in
    let output = store 0x08 0x80 output in
    let output = flag_on e.self_powered 0x08 0x40 output in
    let output = flag_on e.remote_wakeup 0x08 0x20 output in
    store 0x09 (half_byte e.max_power) output

abbrev pub put_common : ChipType → Eeprom → (ℕ → ℕ) → ℕ → ℕ
put_common kind e output =
    let output = put_header e output in
    if type_value kind == 0 || type_value kind == 7
    then output
    else let output = store 0x0a 0 output in
      let output = flag_on e.in_is_isochronous 0x0a 1 output in
      flag_on e.out_is_isochronous 0x0a 2 output

-- use_serial not used in AM devices
abbrev pub put_use_serial : ChipType → Eeprom → (ℕ → ℕ) → ℕ → ℕ
put_use_serial kind e output =
    if ltb 0 (type_value kind) then flag e.use_serial 0x0a use_serial_num output else output

-- The image without the user data and the checksum.
unfoldable pub image : ChipType → Eeprom → ℕ → ℕ
image kind e =
    let output = put_common kind e (emptied kind e.buf) in
    let output = put_strings kind (size_mask e.size % 256) e output in
    put_specific kind e (put_use_serial kind e output)

unfoldable pub with_image : ChipType → Eeprom → Eeprom
with_image kind e = record e { buf = image kind e }

-- The user data is used if it is there.
abbrev pub has_user_data : Eeprom → Bool
has_user_data e = elim e.user_data [ none ↦ false | some l ↦ not (is_negative e.user_data_size) ]

-- user_data_addr + user_data_size > size
unfoldable pub is_too_long : Eeprom → Bool
is_too_long e =
    has_user_data e
    && ltb (pos_part e.size + neg_part e.user_data_addr + neg_part e.user_data_size)
        (pos_part e.user_data_addr + pos_part e.user_data_size + neg_part e.size)

unfoldable pub with_user_data : Eeprom → Eeprom
with_user_data e =
    if has_user_data e
    then elim e.user_data [
      | none ↦ e
      | some l ↦
          let before = neg_part e.user_data_addr in
          record e {
            buf =
                memcpy (pos_part e.user_data_addr) (bytes l) before
                  (pos_part e.user_data_size - before) e.buf;
          }
    ]
    else e

-- checksum = value^checksum; checksum = (checksum << 1) | (checksum >> 15);
abbrev pub mix : ℕ → ℕ → ℕ
mix value checksum = let x = bit_xor value checksum in u16 (bit_or (x <<< 1) (x >>> 15))

-- value = output[i*2]; value += output[(i*2)+1] << 8;
abbrev pub word_at : (ℕ → ℕ) → ℕ → ℕ
word_at output i = u16 (output (i * 2) + (output (i * 2 + 1) <<< 8))

-- The FT230X has a user section, which is not part of the checksum.
abbrev pub skipped : ChipType → ℕ → ℕ
skipped ChipType.type_230x i = if i == 0x12 then 0x40 else i
skipped _ i = i

-- The factory configuration of the FT230X is read from the device.
abbrev pub is_factory : ChipType → ℕ → Bool
is_factory ChipType.type_230x i = leb 0x40 i && ltb i 0x50
is_factory _ i = false

-- The image with its checksum, ready for the device.
unfoldable pub finished : Eeprom → ℕ → Eeprom
finished e checksum =
    let size = pos_part e.size in
    record e {
      buf = store (size - 1) (checksum / 256) (store (size - 2) (checksum % 256) e.buf);
      initialized_for_connected_device = pos 1;
    }

abbrev pub words_of : Eeprom → ℕ
words_of e = pos_part e.size / 2 - 1

module _ {W : Type 0} where
  abbrev pub put : Eeprom → Action W (Unit {0})
  put e = update λ c. record c { eeprom = some e }

  -- The structure of the context, which is not NULL.
  abbrev pub structure_of : ℤ → Context → Action W Eeprom
  structure_of code c = elim c.eeprom [
    | none ↦ error_return code "No eeprom structure"
    | some e ↦ pure e
  ]

module _ {W : Type 0} (host : Host W) where
  -- The value of the word at `i`, and where the loop goes on from.
  abbrev factory : ℕ → Action W (ℕ × ℕ)
  factory i = do
    (ret, read) ← call (read_eeprom_location host i)
    pure (elim read [ none ↦ (0, 0x50) | some v ↦ (u16 v, i) ])

  abbrev value_at : ChipType → (ℕ → ℕ) → ℕ → Action W (ℕ × ℕ)
  value_at kind output i = if is_factory kind i then factory i else pure (word_at output i, i)

  -- The loop over `i`, up to `n`, with `rounds` left; it takes at most `n` rounds.
  unfoldable pub sum_words : ℕ → ChipType → (ℕ → ℕ) → ℕ → ℕ → ℕ → Action W ℕ
  sum_words zero kind output n i checksum = pure checksum
  sum_words (suc rounds) kind output n i checksum =
      if ltb i n
      then value_at kind output (skipped kind i)
        >>= (λ v. sum_words rounds kind output n ((v.1 + 1) % 256) (mix v.0 checksum))
      else pure checksum

  unfoldable pub eeprom_build : Function W ℤ
  eeprom_build = body do
    c ← context (minus 2) "No context"
    e ← structure_of (minus 2) c
    error_if (eq_ℤ e.chip (minus 1)) (minus 6) "No connected EEPROM or EEPROM type unknown"
    let kind = c.chip_type
    let e = sized e
    put e
    let area = user_area_size kind e
    error_if (is_negative area) (minus 1) "eeprom size exceeded (1)"
    let e = with_image kind e
    put e
    error_if (is_too_long e) (minus 1) "eeprom size exceeded"
    let e = with_user_data e
    put e
    checksum ← sum_words (words_of e) kind e.buf (words_of e) 0 0xaaaa
    put (finished e checksum)
    pure area
