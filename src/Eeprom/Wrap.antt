-- ===== src/Eeprom/Wrap.antt =====
-- Where ftdi_eeprom_build puts the strings: behind the fields, for both sizes of memory.
use libsgftdi.Base.{ℕ, suc, ◌+◌, ◌*◌, ◌%◌, ◌≤◌, ◌<◌, ◌≡◌, refl, ◌∙◌, arith, ltb, leb, ◌==◌}
use libsgftdi.Base.{
  Bool-cases, if◌then◌else◌, true, Bool, store, List, [], ◌∷◌, length, length-take, Option, some,
  none, bit_and, bit_and-ones, ◌||◌, ◌⊎◌, inl, inr,
}
use libsgftdi.Context.{Eeprom, ChipType, type_value}
use libsgftdi.Eeprom.Text.{
  Cursor, emit, emit_chars, emit_string, text, size_of, put_strings, put_string, legacy,
  strings_start,
}
use libsgftdi.Eeprom.Build.{base_area, strings_size}

-- The masks of memories of 128 and of 256 bytes.
abbrev pub is_mask : ℕ → Bool
is_mask mask = mask == 0x7f || mask == 0xff

-- A place of the strings, or the first byte, where the last of them may wrap to.
abbrev is_clear : ℕ → Bool
is_clear j = j == 0 || leb 0x14 j

clear :
    (p mask : ℕ)
    → is_mask mask ≡ true
    → 0x94 ≤ p
    → p ≤ 256
    → is_clear (bit_and (p % 256) mask) ≡ true
clear p mask m lo hi = elim (masks mask m) [
  | inl half ↦ rw half (ground (arith, bit_and-ones 7 (p % 256)))
  | inr whole ↦ rw whole (ground (arith, bit_and-ones 8 (p % 256)))
]
  where
    masks : (mask : ℕ) → is_mask mask ≡ true → (mask ≡ 0x7f) ⊎ (mask ≡ 0xff)
    masks mask m = ground arith

store-clear : (j k v x : ℕ) → is_clear j ≡ true → 0 < k → k < 0x14 → (if k == j then v else x) ≡ x
store-clear j k v x h lo hi = ground arith

length-text : (t : Option (List ℕ)) → length (text t) ≡ size_of t
length-text none = refl
length-text (some l) = omega (arith, length-take (length l % 256) l)

module _ (mask k o : ℕ) (m : is_mask mask ≡ true) (low : 0 < k) (high : k < 0x14) where
  -- The cursor stands at `q`, and byte `k` is still `o`.
  record IsAt (q : ℕ) (c : Cursor) : Type 0 where
    place : c.at ≡ q % 256
    kept : c.output k ≡ o

  emit-IsAt : (q v : ℕ) (c : Cursor) → 0x94 ≤ q → q ≤ 256 → IsAt q c → IsAt (q + 1) (emit mask v c)
  emit-IsAt q v c lo hi h = record {
    place = ground (arith, h.place);
    kept = rw h.place (
        store-clear (bit_and (q % 256) mask) k v (c.output k) (clear q mask m lo hi) low high
        ∙ h.kept);
  }

  emit_chars-IsAt :
      (l : List ℕ) (q : ℕ) (c : Cursor)
      → 0x94 ≤ q
      → q + 2 * length l ≤ 257
      → IsAt q c
      → IsAt (q + 2 * length l) (emit_chars mask l c)
  unfolding emit_chars
  emit_chars-IsAt [] q c lo hi h = rw (plus_none q) h
    where
      plus_none : (q : ℕ) → q + 0 ≡ q
      plus_none q = omega arith
  emit_chars-IsAt (x ∷ l) q c lo hi h =
      let one = emit-IsAt q (x % 256) c lo (omega arith) h in
      let two = emit-IsAt (q + 1) 0 _ (omega arith) (omega arith) one in
      let rest = emit_chars-IsAt l (q + 1 + 1) _ (omega arith) (omega arith) two in
      rw (later q (length l)) at rest
    where
      later : (q n : ℕ) → q + 1 + 1 + 2 * n ≡ q + 2 * suc n
      later q n = omega arith

  emit_string-IsAt :
      (t : Option (List ℕ)) (q : ℕ) (c : Cursor)
      → 0x94 ≤ q
      → q + (2 + 2 * size_of t) ≤ 257
      → IsAt q c
      → IsAt (q + (2 + 2 * size_of t)) (emit_string mask t c)
  unfolding emit_string
  emit_string-IsAt t q c lo hi h =
      let n = length-text t in
      let one = emit-IsAt q ((size_of t * 2 + 2) % 256) c lo (omega arith) h in
      let two = emit-IsAt (q + 1) 3 _ (omega arith) (omega arith) one in
      let rest = emit_chars-IsAt (text t) (q + 1 + 1) _ (omega arith) (omega arith) two in
      rw (n, later q (size_of t)) at rest
    where
      later : (q n : ℕ) → q + 1 + 1 + 2 * n ≡ q + (2 + 2 * n)
      later q n = omega arith

  put_string-IsAt :
      (j : ℕ) (t : Option (List ℕ)) (q : ℕ) (c : Cursor)
      → k < 0x0e
      → 0x0e ≤ j
      → 0x94 ≤ q
      → q + (2 + 2 * size_of t) ≤ 257
      → IsAt q c
      → IsAt (q + (2 + 2 * size_of t)) (put_string mask j t c)
  unfolding put_string
  put_string-IsAt j t q c header field lo hi h =
      let written = emit_string-IsAt t q c lo hi h in
      record { place = written.place; kept = ground (arith, written.kept) }

  legacy-IsAt :
      (kind : ChipType) (e : Eeprom) (q : ℕ) (c : Cursor)
      → 0x94 ≤ q
      → q + (if ltb 1 (type_value kind) then 3 else 0) ≤ 257
      → IsAt q c
      → (legacy kind mask e c).output k ≡ o
  legacy-IsAt kind e q c lo hi h = elim (Bool-cases (ltb 1 (type_value kind))) [
    | inl newer ↦
        rw newer
          (emit-IsAt (q + 1 + 1) _ _ (omega arith) (omega (arith, newer_fits newer)) (
            emit-IsAt (q + 1) _ _ (omega arith) (omega (arith, newer_fits newer))
              (emit-IsAt q _ c lo (omega (arith, newer_fits newer)) h))).kept
    | inr older ↦ rw older h.kept
  ]
    where
      newer_fits : ltb 1 (type_value kind) ≡ true → q + 3 ≤ 257
      newer_fits newer = ground arith

abbrev tail_size : ChipType → ℕ
tail_size kind = if ltb 1 (type_value kind) then 3 else 0

room :
    (kind : ChipType)
    → (0x94 ≤ strings_start kind) × (strings_start kind + 6 + base_area kind + tail_size kind ≤ 257)
room ChipType.type_am = (omega arith, omega arith)
room ChipType.type_bm = (omega arith, omega arith)
room ChipType.type_2232c = (omega arith, omega arith)
room ChipType.type_r = (omega arith, omega arith)
room ChipType.type_2232h = (omega arith, omega arith)
room ChipType.type_4232h = (omega arith, omega arith)
room ChipType.type_232h = (omega arith, omega arith)
room ChipType.type_230x = (omega arith, omega arith)

-- If the strings fit into the area that the code allows them, then in a memory of 128 or of 256
-- bytes, around which they may wrap, writing them changes none of the bytes 1 to 13, where the
-- other fields stand.
pub put_strings-below :
    (kind : ChipType) (mask : ℕ) (e : Eeprom) (o : ℕ → ℕ) (k : ℕ)
    → is_mask mask ≡ true
    → strings_size e ≤ base_area kind
    → 0 < k
    → k < 0x0e
    → put_strings kind mask e o k ≡ o k
unfolding put_strings
put_strings-below kind mask e o k m fits low high =
    let start = strings_start kind in
    let (lo, hi) = room kind in
    let wide : k < 0x14 = omega arith in
    let a = size_of e.manufacturer in
    let b = size_of e.product in
    let d = size_of e.serial in
    let c : Cursor = record { at = start; output = store 0x0e start o } in
    let begun : IsAt mask k (o k) m low wide start c = record {
      place = narrow start (omega (arith, hi));
      kept = ground arith;
    } in
    let first =
      put_string-IsAt mask k (o k) m low wide 0x0f e.manufacturer start c high (omega arith) lo
        (omega (arith, fits, hi)) begun in
    let q = start + (2 + 2 * a) in
    let c = put_string mask 0x0f e.manufacturer c in
    let second =
      put_string-IsAt mask k (o k) m low wide 0x11 e.product q c high (omega arith)
        (omega (arith, lo)) (omega (arith, fits, hi)) first in
    let q = q + (2 + 2 * b) in
    let c = put_string mask 0x11 e.product c in
    let third =
      emit_string-IsAt mask k (o k) m low wide e.serial q c (omega (arith, lo))
        (omega (arith, fits, hi)) second in
    let last =
      legacy-IsAt mask k (o k) m low wide kind e (q + (2 + 2 * d)) (emit_string mask e.serial c)
        (omega (arith, lo)) (omega (arith, fits, hi)) third in
    ground (arith, last)
  where
    narrow : (q : ℕ) → q < 256 → q ≡ q % 256
    narrow q h = omega arith
