-- ===== src/Eeprom/ChipId.antt =====
-- ftdi_read_chipid: the number that an FT232R has in the words 0x43 and 0x44 of its memory. `int` is
-- little-endian.
use libsgftdi.Base.{
  ℕ, ℤ, ◌+◌, ◌*◌, minus, eq_ℤ, Option, bit_or, bit_and, bit_xor, ◌<<<◌, ◌>>>◌, u8, u32, get_or,
}
use libsgftdi.Usb.{Host, Function, ◌>>=◌, ◌>>◌, body_out, opened, pure, error_if, vendor_in}
use libsgftdi.Base.{not, List, pos}

-- The function takes and gives an unsigned char.
unfoldable pub read_chipid_shift : ℕ → ℕ
read_chipid_shift value = bit_or (bit_and value 1 <<< 1) (
    bit_or (bit_and value 2 <<< 5) (
      bit_or (bit_and value 4 >>> 2) (
        bit_or (bit_and value 8 <<< 4) (
          bit_or (bit_and value 16 >>> 1) (
            bit_or (bit_and value 32 >>> 1)
              (bit_or (bit_and value 64 >>> 4) (bit_and value 128 >>> 2)))))))

-- The two bytes that the transfer stores in an int that was 0.
abbrev pub stored_word : List ℕ → ℕ
stored_word l = get_or l 0 0 + get_or l 1 0 * 256

-- a << 8 | a >> 8
abbrev pub exchanged : ℕ → ℕ
exchanged a = bit_or (u32 (a <<< 8)) (a >>> 8)

-- From the two words to the number.
unfoldable pub chipid_of : ℕ → ℕ → ℕ
chipid_of a0 b0 =
    let a = exchanged a0 in
    let b = exchanged b0 in
    let joined = bit_or (u32 (a <<< 16)) (bit_and b 0xFFFF) in
    let shifted = bit_or (read_chipid_shift (u8 joined)) (
      bit_or (read_chipid_shift (u8 (joined >>> 8)) <<< 8) (
        bit_or (read_chipid_shift (u8 (joined >>> 16)) <<< 16)
          (read_chipid_shift (u8 (joined >>> 24)) <<< 24))) in
    bit_xor shifted 0xa5f0f7d1

module _ {W : Type 0} (host : Host W) where
  unfoldable pub read_chipid : Function W (ℤ × Option ℕ)
  read_chipid = body_out do
    (c, dev) ← opened (minus 2) "USB device unavailable"
    (r, l) ← vendor_in host c dev 0x90 0 0x43 2
    error_if (not (eq_ℤ r (pos 2))) (minus 1) "read of FTDIChip-ID failed"
    (r, l') ← vendor_in host c dev 0x90 0 0x44 2
    error_if (not (eq_ℤ r (pos 2))) (minus 1) "read of FTDIChip-ID failed"
    pure (chipid_of (stored_word l) (stored_word l'))
