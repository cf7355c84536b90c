-- ===== src/Baud/Register.antt =====
-- What the registers mean to the chip, as the comments of ftdi_to_clkbits describe it (AN120), and
-- that the encoding says what was computed.
use libsgftdi.Base.{
  Bool, ℕ, ◌+◌, ◌*◌, ◌/◌, ◌%◌, ◌≤◌, ◌<◌, ◌≡◌, refl, List, [], ◌∷◌, get_or, arith, ap,
}
use libsgftdi.Base.{◌==◌, ltb, every, every-holds, if◌then◌else◌, true, ◌∙◌, ◌≢◌, ◌⊎◌, inl, inr}
use libsgftdi.Base.{bit_or, bit_or-low_high, bit_and-ones, ◌&&◌}
use libsgftdi.Baud.Clock.{encode, frac_code, half_up, best_divisor, to_clkbits, Setting}

-- The eighths that a code for the fraction stands for.
abbrev pub frac_eighths : List ℕ
frac_eighths = 0 ∷ 4 ∷ 2 ∷ 1 ∷ 3 ∷ 5 ∷ 6 ∷ 7 ∷ []

-- The divisor, in eighths, that a register of 17 bits stands for: 0 is /1, 1 is /1.5, and from /2 on
-- bits 13..0 are the integer part and bits 16..14 the code of the fraction.
abbrev pub eighths : ℕ → ℕ
eighths e =
    if e == 0 then 8 else if e == 1 then 12 else e % 0x4000 * 8 + get_or frac_eighths (e / 0x4000) 0

-- The code of a fraction is below 8 and stands for that fraction.
abbrev is_inverse : ℕ → Bool
is_inverse k = ltb (get_or frac_code k 0) 8 && get_or frac_eighths (get_or frac_code k 0) 0 == k

frac_table : every is_inverse 8 ≡ true
unfolding every
frac_table = refl

frac_inverse :
    (k : ℕ)
    → k < 8
    → (get_or frac_code k 0 < 8) × (get_or frac_eighths (get_or frac_code k 0) 0 ≡ k)
frac_inverse k h = ground (arith, every-holds is_inverse 8 k h frac_table)

pub encode_sum : (d : ℕ) → d < 0x20000 → encode d ≡ d / 8 + 0x4000 * get_or frac_code (d % 8) 0
unfolding encode
encode_sum d h =
    ap (λ k. bit_or (d / 8) (get_or frac_code k 0 * 0x4000)) (bit_and-ones 3 d)
    ∙ omega (arith, bit_or-low_high 14 (get_or frac_code (d % 8) 0) (d / 8) (omega arith))

eighths_parts :
    (n f : ℕ) → 2 ≤ n → n < 0x4000 → eighths (n + 0x4000 * f) ≡ n * 8 + get_or frac_eighths f 0
eighths_parts n f lo hi = ground (arith, ap (λ k. get_or frac_eighths k 0) quotient)
  where
    quotient : (n + 0x4000 * f) / 0x4000 ≡ f
    quotient = omega arith

-- From /2 on the chip reads back the divisor that was encoded, which fits its 17 bits.
pub eighths-encode :
    (d : ℕ) → 16 ≤ d → d < 0x20000 → (eighths (encode d) ≡ d) × (encode d < 0x20000)
eighths-encode d lo hi =
    let inverse = frac_inverse (d % 8) (omega arith) in
    rw (encode_sum d hi) (
      eighths_parts (d / 8) (get_or frac_code (d % 8) 0) (omega arith) (omega arith)
          ∙ omega (arith, inverse.1),
      omega (arith, inverse.0),
    )

-- The rate of a divisor in eighths from a clock, rounded to the nearest: 6,000,000 is twice the rate
-- of /1 in eighths of C_CLK / 16.
abbrev pub rate : ℕ → ℕ → ℕ
rate twice d = (twice / d + 1) / 2

half_up_lem : (n : ℕ) → half_up n ≡ (n + 1) / 2
half_up_lem n = ground (arith, bit_and-ones 1 n)

euclid : (n b : ℕ) → 0 < b → (n / b * b ≤ n) × (n < n / b * b + b)
euclid n b h = grind arith

quotient_bounds : (n b q : ℕ) → 0 < b → n / b ≡ q → (q * b ≤ n) × (n < q * b + b)
quotient_bounds n b q h e = rw e at (euclid n b h)

-- No rate has the divisor 16384.0, which 14 bits do not hold and the code does not round down. On
-- the clock of CLK/10 this rests on the bound by which that clock is chosen.
no_gap :
    (n b : ℕ) → 0 < b → (n ≡ 48000000) ⊎ ((n ≡ 192000000) × (733 ≤ b)) → (n / b + 1) / 2 ≢ 0x20000
no_gap n b h clock e = elim (two (n / b) e) [
  | inl q ↦ omega (arith, quotient_bounds n b 262143 h q)
  | inr q ↦ omega (arith, quotient_bounds n b 262144 h q)
]
  where
    two : (q : ℕ) → (q + 1) / 2 ≡ 0x20000 → (q ≡ 262143) ⊎ (q ≡ 262144)
    two q h = omega arith

abbrev clamped : ℕ → ℕ
clamped d = if ltb 0x20000 d then 0x1ffff else d

clamped_range : (d : ℕ) → 16 ≤ d → d ≢ 0x20000 → (16 ≤ clamped d) × (clamped d < 0x20000)
clamped_range d lo ne = ground arith

quotient_lower : (n b : ℕ) → 0 < b → b * 32 ≤ n → 32 ≤ n / b
quotient_lower n b h lo = grind (arith, euclid n b h)

-- The two clocks: C_CLK / 16 for every rate, and H_CLK / 10 from 733 on.
range_c :
    (b : ℕ)
    → 0 < b
    → b < 1500000
    → (16 ≤ best_divisor b 48000000 16) × (best_divisor b 48000000 16 < 0x20000)
unfolding best_divisor
range_c b h lo = rw (half_up_lem (48000000 / b)) (
    clamped_range ((48000000 / b + 1) / 2)
      (omega (arith, quotient_lower 48000000 b h (omega arith))) (no_gap 48000000 b h (inl refl)))

range_h :
    (b : ℕ)
    → 733 ≤ b
    → b < 6000000
    → (16 ≤ best_divisor b 120000000 10) × (best_divisor b 120000000 10 < 0x20000)
unfolding best_divisor
range_h b h lo = rw (half_up_lem (192000000 / b)) (
    clamped_range ((192000000 / b + 1) / 2)
      (omega (arith, quotient_lower 192000000 b (omega arith) (omega arith)))
      (no_gap 192000000 b (omega arith) (inr (refl, h))))

-- A setting says what the chip does: its register has 17 bits, and the rate is the one that the
-- register gives from the clock.
abbrev pub IsExact : ℕ → Setting → Type 0
IsExact twice s =
    (s.encoded_divisor < 0x20000) × (s.best_baud ≡ rate twice (eighths s.encoded_divisor))

pub to_clkbits_c-IsExact : (b : ℕ) → 0 < b → IsExact 48000000 (to_clkbits b 48000000 16)
unfolding to_clkbits
to_clkbits_c-IsExact b h = ground (
  arith,
  range_c b h,
  eighths-encode (best_divisor b 48000000 16),
  half_up_lem (48000000 / best_divisor b 48000000 16),
)

pub to_clkbits_h-IsExact : (b : ℕ) → 733 ≤ b → IsExact 192000000 (to_clkbits b 120000000 10)
unfolding to_clkbits
to_clkbits_h-IsExact b h = ground (
  arith,
  range_h b h,
  eighths-encode (best_divisor b 120000000 10),
  half_up_lem (192000000 / best_divisor b 120000000 10),
)
