-- ===== src/Eeprom/Guess.antt =====
-- What the size that ftdi_read_eeprom guesses says of the buffer.
use libsgftdi.Base.{
  ℕ, ℤ, ◌+◌, ◌<◌, ◌≡◌, ◌≢◌, ◌⊎◌, inl, inr, refl, arith, pos, minus, Bool, true, false, not, ◌==◌,
  ◌&&◌, ==_iff, every, every-holds, every_intro, Bool-cases,
}
use libsgftdi.Context.{ChipType, Eeprom}
use libsgftdi.Eeprom.Load.{memory_size, is_blank, repeats, finds_ff, int_bytes}

-- Every byte of the first `n` is again `n` bytes behind.
abbrev pub Repeats : Eeprom → ℕ → Type 0
Repeats e n = (k : ℕ) → k < n → e.buf k ≡ e.buf (n + k)

-- No byte is 0, the last is 0xff, and strrchr finds no other behind the buffer.
pub record IsBlank (e : Eeprom) : Type 0 where
  pub nonzero : (k : ℕ) → k < 256 → e.buf k ≢ 0
  pub last : e.buf 255 ≡ 0xff
  pub no_other : finds_ff (int_bytes e.release_number) ≡ false

-- 128 bytes for the memory inside an FT232R. Elsewhere, a blank memory has no size; another has the
-- first of 128 and 64 bytes after which the buffer repeats, or 256.
abbrev pub HasSize : ChipType → Eeprom → ℤ → Type 0
HasSize ChipType.type_r e size = size ≡ pos 128
HasSize _ e size =
    (IsBlank e × (size ≡ minus 1))
    ⊎ ((¬ IsBlank e)
        × ((Repeats e 128 × (size ≡ pos 128))
            ⊎ ((¬ Repeats e 128)
                × ((Repeats e 64 × (size ≡ pos 64)) ⊎ ((¬ Repeats e 64) × (size ≡ pos 256))))))

same_bytes : (a b : ℕ) → (a == b) ≡ true → a ≡ b
same_bytes a b h = (==_iff a b).0 h

repeats-true : (e : Eeprom) (n : ℕ) → repeats e.buf n ≡ true → Repeats e n
repeats-true e n h k lt =
    same_bytes (e.buf k) (e.buf (n + k)) (every-holds (λ k. e.buf k == e.buf (n + k)) n k lt h)

repeats-false : (e : Eeprom) (n : ℕ) → repeats e.buf n ≡ false → ¬ Repeats e n
repeats-false e n h all =
    let yes : repeats e.buf n ≡ true =
      every_intro (λ k. e.buf k == e.buf (n + k)) n
        (λ k lt. (==_iff (e.buf k) (e.buf (n + k))).1 (all k lt)) in
    cc

nonzero : (a : ℕ) → not (a == 0) ≡ true → a ≢ 0
nonzero a h e = ground (arith, h, e)

all_three : (a b c : Bool) → (a && b && c) ≡ true → (a ≡ true) × (b ≡ true) × (c ≡ true)
all_three a b c h = ground arith

is_blank-true : (e : Eeprom) → is_blank e ≡ true → IsBlank e
is_blank-true e h =
    let (bytes, last, other) =
      all_three (every (λ k. not (e.buf k == 0)) 256) (e.buf 255 == 0xff)
        (not (finds_ff (int_bytes e.release_number))) h in
    record {
      nonzero = λ k lt. nonzero (e.buf k) (every-holds (λ k. not (e.buf k == 0)) 256 k lt bytes);
      last = same_bytes (e.buf 255) 0xff last;
      no_other = off (finds_ff (int_bytes e.release_number)) other;
    }
  where
    off : (b : Bool) → not b ≡ true → b ≡ false
    off b h = ground arith

is_blank-false : (e : Eeprom) → is_blank e ≡ false → ¬ IsBlank e
is_blank-false e h blank =
    let bytes : every (λ k. not (e.buf k == 0)) 256 ≡ true =
      every_intro (λ k. not (e.buf k == 0)) 256 (λ k lt. test (e.buf k) (blank.nonzero k lt)) in
    let last : (e.buf 255 == 0xff) ≡ true = (==_iff (e.buf 255) 0xff).1 blank.last in
    clash (every (λ k. not (e.buf k == 0)) 256) (e.buf 255 == 0xff)
      (finds_ff (int_bytes e.release_number)) bytes last blank.no_other h
  where
    test : (a : ℕ) → a ≢ 0 → not (a == 0) ≡ true
    test a h = ground arith

    clash : (a b c : Bool) → a ≡ true → b ≡ true → c ≡ false → (a && b && not c) ≡ false → ⊥
    clash a b c h1 h2 h3 h = ground arith

guessed : (e : Eeprom) → HasSize ChipType.type_bm e (memory_size ChipType.type_bm e)
unfolding memory_size
guessed e = elim (Bool-cases (is_blank e)) [
  | inl blank ↦ rw blank (inl (is_blank-true e blank, refl))
  | inr filled ↦ elim (Bool-cases (repeats e.buf 0x80)) [
    | inl half ↦
        rw (filled, half) (inr (is_blank-false e filled, inl (repeats-true e 128 half, refl)))
    | inr more ↦ elim (Bool-cases (repeats e.buf 0x40)) [
      | inl quarter ↦
          rw (filled, more, quarter)
            (inr (
              is_blank-false e filled,
              inr (repeats-false e 128 more, inl (repeats-true e 64 quarter, refl)),
            ))
      | inr whole ↦
          rw (filled, more, whole)
            (inr (
              is_blank-false e filled,
              inr (repeats-false e 128 more, inr (repeats-false e 64 whole, refl)),
            ))
    ]
  ]
]

pub memory_size-HasSize : (kind : ChipType) (e : Eeprom) → HasSize kind e (memory_size kind e)
unfolding memory_size
memory_size-HasSize ChipType.type_r e = refl
memory_size-HasSize _ e = guessed e

pub memory_size-size :
    (kind : ChipType) (e : Eeprom) (size : ℤ)
    → memory_size kind (record e { size = size }) ≡ memory_size kind e
unfolding memory_size
memory_size-size ChipType.type_r e size = refl
memory_size-size ChipType.type_am e size = refl
memory_size-size ChipType.type_bm e size = refl
memory_size-size ChipType.type_2232c e size = refl
memory_size-size ChipType.type_2232h e size = refl
memory_size-size ChipType.type_4232h e size = refl
memory_size-size ChipType.type_232h e size = refl
memory_size-size ChipType.type_230x e size = refl
