-- ===== src/Eeprom/Roundtrip.antt =====
-- What ftdi_eeprom_decode makes of the image of ftdi_eeprom_build.
use libsgftdi.Base.{ℕ, zero, suc, ◌⊎◌, ◌+◌, ◌/◌, ◌<◌, ◌≡◌, refl, arith}
use libsgftdi.Base.{if◌then◌else◌, true, false, inl, inr}
use libsgftdi.Base.{pos, minus, is_negative, ℤ, some, none, Option, eq_ℤ, List}
use libsgftdi.Context.{Context, Eeprom, ChipType}
use libsgftdi.Usb.{Host, Sys, done}
use libsgftdi.Control.Wire.{system}
use libsgftdi.Eeprom.Build.{finished, words_of, sized, with_image}
use libsgftdi.Eeprom.Build.{eeprom_build, user_area_size, is_too_long, with_user_data}
use libsgftdi.Eeprom.Decode.{
  checksum_of, is_intact, eeprom_decode, decode_common, with_strings, string_of, string_at,
}
use libsgftdi.Eeprom.Specific.{decode_specific}
use libsgftdi.Eeprom.Checksum.{is_plain, sum_words-checksum_of}

abbrev pub with_eeprom : Context → Eeprom → Context
with_eeprom c e = record c { eeprom = some e }

-- The structure with the image in it, but for the checksum.
abbrev pub filled : ChipType → Eeprom → Eeprom
filled kind e = with_user_data (with_image kind (sized e))

abbrev pub checksum : ChipType → Eeprom → ℕ
checksum kind e = checksum_of (words_of e) kind e.buf (words_of e) 0 0xaaaa

abbrev pub built : ChipType → Eeprom → Eeprom
built kind e = finished (filled kind e) (checksum kind (filled kind e))

is_intact-strings :
    (kind : ChipType) (m p s : Option (List ℕ)) (e : Eeprom)
    → is_intact kind (with_strings m p s (decode_common e)) ≡ is_intact kind e
unfolding is_intact with_strings decode_common
is_intact-strings kind m p s e = refl

size_cases : (n : ℕ) → (n ≡ 0) ⊎ ((m : ℕ) × (n ≡ suc m))
size_cases zero = inl refl
size_cases (suc m) = inr (m, refl)

-- The code that the tests of the build lead to.
abbrev pub build_code : ChipType → Eeprom → ℤ
build_code kind e =
    if eq_ℤ e.chip (minus 1)
    then minus 6
    else if is_negative (user_area_size kind (sized e))
    then minus 1
    else if is_too_long (with_image kind (sized e))
    then minus 1
    else user_area_size kind (sized e)

module _ {W : Type 0} (host : Host W) (c : Context) (e : Eeprom) (w : W)
    (there : c.eeprom ≡ some e) where
  pub eeprom_build-built :
      is_plain c.chip_type ≡ true
      → words_of (filled c.chip_type e) < 256
      → is_negative (eeprom_build host (system c w)).0 ≡ false
      → (eeprom_build host (system c w)).1 ≡ system (with_eeprom c (built c.chip_type e)) w
  unfolding eeprom_build
  eeprom_build-built plain small ok =
      let run =
        sum_words-checksum_of host c.chip_type (filled c.chip_type e).buf
          (words_of (filled c.chip_type e)) (words_of (filled c.chip_type e)) 0 0xaaaa
          (system (with_eeprom c (filled c.chip_type e)) w) plain small in
      ground (arith, run)

  -- For every type but the FT230X, on a memory of less than 514 bytes, ftdi_eeprom_build returns -6 if
  -- the type of the memory is not known, else -1 if the strings are longer than the area for them,
  -- else -1 if the user data ends behind the memory, and else what the strings leave of their area.
  pub eeprom_build-build_code :
      is_plain c.chip_type ≡ true
      → words_of (filled c.chip_type e) < 256
      → (eeprom_build host (system c w)).0 ≡ build_code c.chip_type e
  unfolding eeprom_build
  eeprom_build-build_code plain small =
      let run =
        sum_words-checksum_of host c.chip_type (filled c.chip_type e).buf
          (words_of (filled c.chip_type e)) (words_of (filled c.chip_type e)) 0 0xaaaa
          (system (with_eeprom c (filled c.chip_type e)) w) plain small in
      ground (arith, run)

  -- A string is a pointer or NULL, and reading one never ends the call.
  string_of-done :
      (k : ℕ) (s : Sys W)
      → (o : Option (List ℕ)) × (w' : W) × (string_of host (decode_common e) k s
          ≡ (done o, record s { world = w' }))
  string_of-done k s = elim (size_cases ((decode_common e).buf (k + 1) / 2)) [
    | inl none_there ↦ (none, s.world, rw none_there refl)
    | inr (n, some_there) ↦ (
      string_at (decode_common e) k (host.alloc (suc n) s.world).0,
      (host.alloc (suc n) s.world).1,
      rw some_there refl,
    )
  ]

  pub eeprom_decode-intact :
      is_intact c.chip_type e ≡ true
      → ((eeprom_decode host (system c w)).0 ≡ pos 0)
        × (m p s : Option (List ℕ)) × ((eeprom_decode host (system c w)).1.ftdi
            ≡ some (
                with_eeprom c (decode_specific c.chip_type (with_strings m p s (decode_common e)))))
  unfolding eeprom_decode
  eeprom_decode-intact intact =
      let (m, w1, r1) = string_of-done 0x0e (system c w) in
      let (p, w2, r2) = string_of-done 0x10 (system c w1) in
      let (s, w3, r3) = string_of-done 0x12 (system c w2) in
      (
        ground (arith, r1, r2, r3, is_intact-strings c.chip_type m p s e),
        m,
        p,
        s,
        ground (arith, r1, r2, r3, is_intact-strings c.chip_type m p s e),
      )
