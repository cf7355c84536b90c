-- ===== src/Eeprom/Identity.antt =====
-- ftdi_eeprom_decode on what ftdi_eeprom_build made: it accepts the image, and the fields that identify
-- the device come back.
use libsgftdi.Base.{ℕ, ◌+◌, ◌*◌, ◌/◌, ◌%◌, ◌-◌, ◌≤◌, ◌<◌, ◌≡◌, refl, ap, ◌∙◌, arith}
use libsgftdi.Base.{if◌then◌else◌, true, false, Bool, Bool-cases, inl, inr, pos_part, ◌⊎◌}
use libsgftdi.Base.{
  pos, minus, eq_ℤ, ◌||◌, is_negative, is_nonzero, ℤ, some, none, Option, List, word,
}
use libsgftdi.Context.{Context, Eeprom, ChipType}
use libsgftdi.Usb.{Host}
use libsgftdi.Control.Wire.{system}
use libsgftdi.Eeprom.Build.{finished, words_of, sized, with_image, put_header, emptied, half_byte}
use libsgftdi.Eeprom.Build.{
  eeprom_build, user_area_size, has_user_data, with_user_data, strings_size, base_area,
}
use libsgftdi.Eeprom.Decode.{eeprom_decode, decode_common, with_strings}
use libsgftdi.Eeprom.Specific.{decode_specific, bit}
use libsgftdi.Eeprom.Checksum.{is_plain, finished-is_intact}
use libsgftdi.Eeprom.Header.{is_header, IsHeaderOf, power_bits, put_header-IsHeaderOf, image-header}
use libsgftdi.Eeprom.Roundtrip.{with_eeprom, filled, checksum, built, eeprom_build-built}
use libsgftdi.Eeprom.Roundtrip.{eeprom_decode-intact}

-- 1 for what C takes as true
abbrev truth : ℤ → ℤ
truth z = if is_nonzero z then pos 1 else pos 0

-- The identity of `e`, as far as the image can hold it: 16 bits of the numbers, the flags as 0 or 1,
-- and the power in steps of two, of which there are 256.
abbrev pub IsCopy : Eeprom → Eeprom → Type 0
IsCopy e e' =
    (e'.vendor_id ≡ pos (word e.vendor_id % 65536))
    × (e'.product_id ≡ pos (word e.product_id % 65536))
    × (e'.release_number ≡ pos (word e.release_number % 65536))
    × (e'.self_powered ≡ truth e.self_powered)
    × (e'.remote_wakeup ≡ truth e.remote_wakeup)
    × (e'.max_power ≡ pos (2 * half_byte e.max_power))

-- What depends on the type of the chip, and the strings, do not touch the identity.
decode_specific-IsCopy :
    (kind : ChipType) (e a : Eeprom) (m p s : Option (List ℕ))
    → IsCopy e a
    → IsCopy e (decode_specific kind (with_strings m p s a))
unfolding decode_specific with_strings
decode_specific-IsCopy ChipType.type_am e a m p s h = h
decode_specific-IsCopy ChipType.type_bm e a m p s h = h
decode_specific-IsCopy ChipType.type_2232c e a m p s h = h
decode_specific-IsCopy ChipType.type_r e a m p s h = h
decode_specific-IsCopy ChipType.type_2232h e a m p s h = h
decode_specific-IsCopy ChipType.type_4232h e a m p s h = h
decode_specific-IsCopy ChipType.type_232h e a m p s h = h
decode_specific-IsCopy ChipType.type_230x e a m p s h = h

two_bytes : (z a b : ℕ) → a ≡ z % 256 → b ≡ z / 256 % 256 → pos (a + b * 256) ≡ pos (z % 65536)
two_bytes z a b low high = ap pos (omega arith)

power :
    (self remote : ℤ) (b : ℕ)
    → b ≡ power_bits self remote
    → (bit b 0x40 ≡ truth self) × (bit b 0x20 ≡ truth remote)
power self remote b h = elim (Bool-cases (is_nonzero self)) [
  | inl x ↦ elim (Bool-cases (is_nonzero remote)) [
    | inl y ↦ rw (h, x, y) (refl, refl)
    | inr y ↦ rw (h, x, y) (refl, refl)
  ]
  | inr x ↦ elim (Bool-cases (is_nonzero remote)) [
    | inl y ↦ rw (h, x, y) (refl, refl)
    | inr y ↦ rw (h, x, y) (refl, refl)
  ]
]

decode_common-IsCopy : (e a : Eeprom) → IsHeaderOf e a.buf → IsCopy e (decode_common a)
unfolding decode_common
decode_common-IsCopy e a h = (
  two_bytes (word e.vendor_id) _ _ h.vendor.0 h.vendor.1,
  two_bytes (word e.product_id) _ _ h.product.0 h.product.1,
  two_bytes (word e.release_number) _ _ h.release.0 h.release.1,
  (power e.self_powered e.remote_wakeup _ h.power).0,
  (power e.self_powered e.remote_wakeup _ h.power).1,
  rw h.most refl,
)

with_user_data-none : (e : Eeprom) → e.user_data ≡ none → with_user_data e ≡ e
unfolding with_user_data
with_user_data-none e h = rw (unused e h) refl
  where
    unused : (e : Eeprom) → e.user_data ≡ none → has_user_data e ≡ false
    unused e h = rw h refl

sized-user_data : (e : Eeprom) → (sized e).user_data ≡ e.user_data
unfolding sized
sized-user_data e = ground arith

-- The checksum stands behind the header.
finished-header :
    (e : Eeprom) (cs k : ℕ)
    → is_header k ≡ true
    → (e.size ≡ pos 0x80) ⊎ (e.size ≡ pos 0x100)
    → (finished e cs).buf k ≡ e.buf k
unfolding finished
finished-header e cs k h (inl half) = rw half (ground arith)
finished-header e cs k h (inr whole) = rw whole (ground arith)

filled-image :
    (kind : ChipType) (e : Eeprom) → e.user_data ≡ none → filled kind e ≡ with_image kind (sized e)
unfolding with_image
filled-image kind e h = with_user_data-none (with_image kind (sized e)) (sized-user_data e ∙ h)

module _ (kind : ChipType) (e : Eeprom)
    (size : ((sized e).size ≡ pos 0x80) ⊎ ((sized e).size ≡ pos 0x100)) (plain : e.user_data ≡ none)
    (fits : strings_size (sized e) ≤ base_area kind) where
  built-header :
      (k : ℕ)
      → is_header k ≡ true
      → (built kind e).buf k ≡ put_header (sized e) (emptied kind (sized e).buf) k
  unfolding with_image
  built-header k h =
      finished-header (filled kind e) (checksum kind (filled kind e)) k h
        (rw (filled-image kind e plain) size)
      ∙ ap (λ a. a.buf k) (filled-image kind e plain)
      ∙ image-header kind (sized e) k h size fits

  built-IsHeaderOf : IsHeaderOf (sized e) (built kind e).buf
  built-IsHeaderOf =
      let h = put_header-IsHeaderOf (sized e) (emptied kind (sized e).buf) in
      record {
        vendor = (built-header 2 refl ∙ h.vendor.0, built-header 3 refl ∙ h.vendor.1);
        product = (built-header 4 refl ∙ h.product.0, built-header 5 refl ∙ h.product.1);
        release = (built-header 6 refl ∙ h.release.0, built-header 7 refl ∙ h.release.1);
        power = built-header 8 refl ∙ h.power;
        most = built-header 9 refl ∙ h.most;
      }

sized-IsCopy : (e a : Eeprom) → IsCopy (sized e) a → IsCopy e a
unfolding sized
sized-IsCopy e a h =
    same (eq_ℤ e.size (minus 1)) (eq_ℤ e.chip (pos 0x56) || eq_ℤ e.chip (pos 0x66)) h
  where
    same :
        (unknown large : Bool)
        → IsCopy
            (if unknown
              then if large then record e { size = pos 0x100 } else record e { size = pos 0x80 }
              else e)
            a
        → IsCopy e a
    same true true h = h
    same true false h = h
    same false large h = h

size_range :
    (kind : ChipType) (e : Eeprom)
    → ((sized e).size ≡ pos 0x80) ⊎ ((sized e).size ≡ pos 0x100)
    → e.user_data ≡ none
    → (2 ≤ pos_part (filled kind e).size) × (words_of (filled kind e) < 256)
unfolding with_image
size_range kind e size unused = rw (filled-image kind e unused) (range (sized e).size size)
  where
    range :
        (size : ℤ)
        → (size ≡ pos 0x80) ⊎ (size ≡ pos 0x100)
        → (2 ≤ pos_part size) × (pos_part size / 2 - 1 < 256)
    range size h = ground arith

module _ {W : Type 0} (host : Host W) (c : Context) (e : Eeprom) (w : W)
    (there : c.eeprom ≡ some e) where
  -- A build that succeeds has found room for the strings.
  eeprom_build-fits :
      is_negative (eeprom_build host (system c w)).0 ≡ false
      → strings_size (sized e) ≤ base_area c.chip_type
  unfolding eeprom_build user_area_size
  eeprom_build-fits ok = ground arith

  -- For every type but the FT230X, whatever the fields are, without user data or with user data whose
  -- address is not negative and whose end fits an int: if ftdi_eeprom_build succeeds, on a memory of 2
  -- to 256 bytes, then ftdi_eeprom_decode accepts the checksum of the image, and returns 0.
  pub eeprom_build-accepted :
      is_plain c.chip_type ≡ true
      → (has_user_data e ≡ true
          → (is_negative e.user_data_addr ≡ false)
            × (pos_part e.user_data_addr + pos_part e.user_data_size < 2147483648))
      → 2 ≤ pos_part (filled c.chip_type e).size
      → pos_part (filled c.chip_type e).size ≤ 256
      → is_negative (eeprom_build host (system c w)).0 ≡ false
      → (eeprom_decode host (eeprom_build host (system c w)).1).0 ≡ pos 0
  eeprom_build-accepted plain placed lo small ok =
      let a = built c.chip_type e in
      let intact = finished-is_intact c.chip_type (filled c.chip_type e) plain lo in
      rw (eeprom_build-built host c e w there plain (omega (arith, small)) ok)
        (eeprom_decode-intact host (with_eeprom c a) a w refl intact).0

  -- For every type but the FT230X, a memory of 128 or of 256 bytes, and no user data: if
  -- ftdi_eeprom_build succeeds, ftdi_eeprom_decode, of its result, returns 0, and the vendor, the
  -- product, the release, the two flags of the power supply and the power are those that the build
  -- was given, in the precision of the image.
  pub eeprom_build-eeprom_decode :
      is_plain c.chip_type ≡ true
      → ((sized e).size ≡ pos 0x80) ⊎ ((sized e).size ≡ pos 0x100)
      → e.user_data ≡ none
      → is_negative (eeprom_build host (system c w)).0 ≡ false
      → let (code, s) = eeprom_decode host (eeprom_build host (system c w)).1 in
        (code ≡ pos 0) × (e' : Eeprom) × (s.ftdi ≡ some (with_eeprom c e')) × IsCopy e e'
  eeprom_build-eeprom_decode plain size unused ok =
      let a = built c.chip_type e in
      let (lo, small) = size_range c.chip_type e size unused in
      let intact = finished-is_intact c.chip_type (filled c.chip_type e) plain lo in
      let (code, m, p, s, end) = eeprom_decode-intact host (with_eeprom c a) a w refl intact in
      let header = built-IsHeaderOf c.chip_type e size unused (eeprom_build-fits ok) in
      let same = decode_common-IsCopy (sized e) a header in
      let e' = decode_specific c.chip_type (with_strings m p s (decode_common a)) in
      let all = decode_specific-IsCopy c.chip_type (sized e) (decode_common a) m p s same in
      rw (eeprom_build-built host c e w there plain small ok) (code, e', end, sized-IsCopy e e' all)
