-- ===== src/Eeprom/Header.antt =====
-- The bytes 2 to 9 of the image, which hold the vendor, the product, the release and the power: after
-- put_common no step of ftdi_eeprom_build writes there.
use libsgftdi.Base.{
  ℕ, ◌+◌, ◌%◌, ◌≤◌, ◌<◌, ◌≡◌, refl, ◌∙◌, arith, ℤ, pos, ◌⊎◌, inl, inr, is_nonzero, ltb, leb, ◌==◌,
  ◌&&◌,
}
use libsgftdi.Base.{Bool-cases, ◌||◌, if◌then◌else◌, true, false, Bool, store}
use libsgftdi.Context.{Eeprom, ChipType, type_value}
use libsgftdi.Eeprom.Bytes.{byte, byte_8, use_serial_num, size_mask, or_at, clear_at, flag, flag_on}
use libsgftdi.Eeprom.Chips.{put_bm, put_2232c, put_r, put_2232h, put_4232h, put_232h, put_230x}
use libsgftdi.Eeprom.Chips.{put_specific, set_ft232h_cbus}
use libsgftdi.Eeprom.Build.{
  put_header, put_common, put_use_serial, image, emptied, strings_size, base_area, half_byte,
}
use libsgftdi.Eeprom.Text.{put_strings}
use libsgftdi.Eeprom.Wrap.{is_mask, put_strings-below}

abbrev pub is_header : ℕ → Bool
is_header k = leb 2 k && ltb k 10

store-header :
    {A : Type 0} (k j : ℕ) (v x : A)
    → is_header k ≡ true
    → is_header j ≡ false
    → (if k == j then v else x) ≡ x
store-header k j v x h apart = ground arith

or_at-header :
    (k j v : ℕ) (o : ℕ → ℕ) → is_header k ≡ true → is_header j ≡ false → or_at j v o k ≡ o k
unfolding or_at
or_at-header k j v o h apart = store-header k j _ (o k) h apart

clear_at-header :
    (k j v : ℕ) (o : ℕ → ℕ) → is_header k ≡ true → is_header j ≡ false → clear_at j v o k ≡ o k
unfolding clear_at
clear_at-header k j v o h apart = store-header k j _ (o k) h apart

flag-header :
    (k j v : ℕ) (z : ℤ) (o : ℕ → ℕ)
    → is_header k ≡ true
    → is_header j ≡ false
    → flag z j v o k ≡ o k
unfolding flag
flag-header k j v z o h apart =
    ground (arith, or_at-header k j v o h apart, clear_at-header k j v o h apart)

flag_on-header :
    (k j v : ℕ) (z : ℤ) (o : ℕ → ℕ)
    → is_header k ≡ true
    → is_header j ≡ false
    → flag_on z j v o k ≡ o k
unfolding flag_on
flag_on-header k j v z o h apart = ground (arith, or_at-header k j v o h apart)

ruleset elsewhere = (store-header, or_at-header, clear_at-header, flag-header, flag_on-header)

put_bm-header : (e : Eeprom) (o : ℕ → ℕ) (k : ℕ) → is_header k ≡ true → put_bm e o k ≡ o k
unfolding put_bm
put_bm-header e o k h = simp elsewhere refl

put_2232c-header : (e : Eeprom) (o : ℕ → ℕ) (k : ℕ) → is_header k ≡ true → put_2232c e o k ≡ o k
unfolding put_2232c
put_2232c-header e o k h = simp elsewhere refl

put_r-header : (e : Eeprom) (o : ℕ → ℕ) (k : ℕ) → is_header k ≡ true → put_r e o k ≡ o k
unfolding put_r
put_r-header e o k h = simp elsewhere refl

put_2232h-header : (e : Eeprom) (o : ℕ → ℕ) (k : ℕ) → is_header k ≡ true → put_2232h e o k ≡ o k
unfolding put_2232h
put_2232h-header e o k h = simp elsewhere refl

put_4232h-header : (e : Eeprom) (o : ℕ → ℕ) (k : ℕ) → is_header k ≡ true → put_4232h e o k ≡ o k
unfolding put_4232h
put_4232h-header e o k h = simp elsewhere refl

put_232h-header : (e : Eeprom) (o : ℕ → ℕ) (k : ℕ) → is_header k ≡ true → put_232h e o k ≡ o k
unfolding put_232h set_ft232h_cbus
put_232h-header e o k h = simp elsewhere refl

put_230x-header : (e : Eeprom) (o : ℕ → ℕ) (k : ℕ) → is_header k ≡ true → put_230x e o k ≡ o k
unfolding put_230x
put_230x-header e o k h = simp elsewhere refl

-- No field that depends on the type of the chip reaches the header.
pub put_specific-header :
    (kind : ChipType) (e : Eeprom) (o : ℕ → ℕ) (k : ℕ)
    → is_header k ≡ true
    → put_specific kind e o k ≡ o k
unfolding put_specific
put_specific-header ChipType.type_am e o k h = refl
put_specific-header ChipType.type_bm e o k h = put_bm-header e o k h
put_specific-header ChipType.type_2232c e o k h = put_2232c-header e o k h
put_specific-header ChipType.type_r e o k h = put_r-header e o k h
put_specific-header ChipType.type_2232h e o k h = put_2232h-header e o k h
put_specific-header ChipType.type_4232h e o k h = put_4232h-header e o k h
put_specific-header ChipType.type_232h e o k h = put_232h-header e o k h
put_specific-header ChipType.type_230x e o k h = put_230x-header e o k h

put_use_serial-header :
    (kind : ChipType) (e : Eeprom) (o : ℕ → ℕ) (k : ℕ)
    → is_header k ≡ true
    → put_use_serial kind e o k ≡ o k
put_use_serial-header kind e o k h =
    ground (arith, flag-header k 0x0a use_serial_num e.use_serial o h refl)

-- The masks of the two sizes of memory.
is_mask-size_mask :
    (size : ℤ) → (size ≡ pos 0x80) ⊎ (size ≡ pos 0x100) → is_mask (size_mask size % 256) ≡ true
is_mask-size_mask size (inl half) = rw half refl
is_mask-size_mask size (inr whole) = rw whole refl

-- The byte of the two flags: bit 7 is always set.
abbrev pub power_bits : ℤ → ℤ → ℕ
power_bits self remote =
    0x80 + (if is_nonzero self then 0x40 else 0) + (if is_nonzero remote then 0x20 else 0)

-- The fields of the header, as ftdi_eeprom_build stores them.
pub record IsHeaderOf (e : Eeprom) (b : ℕ → ℕ) : Type 0 where
  pub vendor : (b 2 ≡ byte e.vendor_id) × (b 3 ≡ byte_8 e.vendor_id)
  pub product : (b 4 ≡ byte e.product_id) × (b 5 ≡ byte_8 e.product_id)
  pub release : (b 6 ≡ byte e.release_number) × (b 7 ≡ byte_8 e.release_number)
  pub power : b 8 ≡ power_bits e.self_powered e.remote_wakeup
  pub most : b 9 ≡ half_byte e.max_power

flags :
    (self remote : ℤ) (o : ℕ → ℕ)
    → flag_on remote 8 0x20 (flag_on self 8 0x40 (store 8 0x80 o)) 8 ≡ power_bits self remote
unfolding flag_on or_at
flags self remote o = elim (Bool-cases (is_nonzero self)) [
  | inl a ↦ elim (Bool-cases (is_nonzero remote)) [
    | inl b ↦ rw (a, b) refl
    | inr b ↦ rw (a, b) refl
  ]
  | inr a ↦ elim (Bool-cases (is_nonzero remote)) [
    | inl b ↦ rw (a, b) refl
    | inr b ↦ rw (a, b) refl
  ]
]

flag_on-other : (k j v : ℕ) (z : ℤ) (o : ℕ → ℕ) → (k == j) ≡ false → flag_on z j v o k ≡ o k
unfolding flag_on or_at
flag_on-other k j v z o apart = ground arith

pub put_header-IsHeaderOf : (e : Eeprom) (o : ℕ → ℕ) → IsHeaderOf e (put_header e o)
unfolding put_header
put_header-IsHeaderOf e o = record {
  vendor = (simp flag_on-other refl, simp flag_on-other refl);
  product = (simp flag_on-other refl, simp flag_on-other refl);
  release = (simp flag_on-other refl, simp flag_on-other refl);
  power = flags e.self_powered e.remote_wakeup _;
  most = refl;
}

put_common-header :
    (kind : ChipType) (e : Eeprom) (o : ℕ → ℕ) (k : ℕ)
    → is_header k ≡ true
    → put_common kind e o k ≡ put_header e o k
put_common-header kind e o k h = elim (Bool-cases (type_value kind == 0 || type_value kind == 7)) [
  | inl plain ↦ rw plain refl
  | inr more ↦ rw more (simp elsewhere refl)
]

pub image-header :
    (kind : ChipType) (e : Eeprom) (k : ℕ)
    → is_header k ≡ true
    → (e.size ≡ pos 0x80) ⊎ (e.size ≡ pos 0x100)
    → strings_size e ≤ base_area kind
    → image kind e k ≡ put_header e (emptied kind e.buf) k
unfolding image
image-header kind e k h size fits =
    let o = put_common kind e (emptied kind e.buf) in
    let mask = size_mask e.size % 256 in
    let strings = put_strings kind mask e o in
    let (low, high) = range k h in
    put_specific-header kind e (put_use_serial kind e strings) k h
    ∙ put_use_serial-header kind e strings k h
    ∙ put_strings-below kind mask e o k (is_mask-size_mask e.size size) fits low high
    ∙ put_common-header kind e (emptied kind e.buf) k h
  where
    range : (k : ℕ) → is_header k ≡ true → (0 < k) × (k < 0x0e)
    range k h = ground arith
