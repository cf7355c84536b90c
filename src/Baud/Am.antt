-- ===== src/Baud/Am.antt =====
-- The loop of ftdi_to_clkbits_AM.
use libsgftdi.Base.{
  ℕ, zero, suc, ◌+◌, ◌*◌, ◌/◌, ◌%◌, ◌≤◌, ◌<◌, ◌≡◌, ◌⊎◌, inl, inr, arith, refl, ◌||◌, ◌&&◌, not, ◌∙◌,
  ap, sym, Bool, true, false, List, [], ◌∷◌, get_or, every, every-holds, bit_and, bit_and-ones,
  Bool-cases, ltb, ◌==◌, if◌then◌else◌,
}
use libsgftdi.Baud.Clock.{
  Candidate, am_supported, am_candidate, am_loop, am_rounded, am_adjust_up, frac_code,
  to_clkbits_am, encode,
}
use libsgftdi.Baud.Register.{encode_sum}

-- The eighths of a divisor that the AM chip has: none, an eighth, a quarter or a half.
abbrev pub is_am_fraction : ℕ → Bool
is_am_fraction k = ltb k 3 || k == 4

-- The divisors that the AM chip is given, in eighths: /1, and from /2 to the largest.
abbrev pub IsAmDivisor : ℕ → Type 0
IsAmDivisor d = (d ≡ 8) ⊎ ((16 ≤ d) × (d ≤ 0x1fff8) × (is_am_fraction (d % 8) ≡ true))

-- The fractions that the two bits above the integer part stand for.
abbrev pub am_frac_eighths : List ℕ
am_frac_eighths = 0 ∷ 4 ∷ 2 ∷ 1 ∷ []

-- The divisor that the 16 bits of the value stand for to the AM chip, in eighths: bits 13..0 are the
-- integer part and bits 15..14 the code of the fraction; 0 is /1.
abbrev pub am_eighths : ℕ → ℕ
am_eighths v = if v == 0 then 8 else v % 0x4000 * 8 + get_or am_frac_eighths (v / 0x4000) 0

abbrev pub am_rate : ℕ → ℕ
am_rate d = (24000000 + d / 2) / d

abbrev is_rounded : ℕ → Bool
is_rounded k = is_am_fraction ((k + get_or am_adjust_up k 0) % 8)

up_table : every is_rounded 8 ≡ true
unfolding every
up_table = refl

-- Rounding up gives a fraction that there is.
rounded_up : (t : ℕ) → is_am_fraction ((t + get_or am_adjust_up (bit_and t 7) 0) % 8) ≡ true
rounded_up t =
    rw (bit_and-ones 3 t)
      (ap is_am_fraction same ∙ every-holds is_rounded 8 (t % 8) (omega arith) up_table)
  where
    same : (t + get_or am_adjust_up (t % 8) 0) % 8 ≡ (t % 8 + get_or am_adjust_up (t % 8) 0) % 8
    same = omega arith

am_supported-IsAmDivisor : (divisor i : ℕ) → IsAmDivisor (am_supported divisor (divisor + i))
unfolding am_supported
am_supported-IsAmDivisor divisor i = ground (arith, rounded_up (divisor + i))

abbrev IsAmCandidate : Candidate → Type 0
IsAmCandidate c = IsAmDivisor c.divisor × (c.baud ≡ am_rate c.divisor)

am_candidate-IsAmCandidate :
    (b divisor d : ℕ) → IsAmDivisor d → IsAmCandidate (am_candidate b divisor d)
unfolding am_candidate
am_candidate-IsAmCandidate b divisor d h = (h, refl)

tried-IsAmCandidate :
    (b divisor i : ℕ) → IsAmCandidate (am_candidate b divisor (am_supported divisor (divisor + i)))
tried-IsAmCandidate b divisor i =
    am_candidate-IsAmCandidate b divisor (am_supported divisor (divisor + i))
      (am_supported-IsAmDivisor divisor i)

-- A round keeps the best candidate, and the first one makes it a candidate.
am_loop-IsAmCandidate :
    (rounds i b divisor : ℕ) (best : Candidate)
    → IsAmCandidate best
    → IsAmCandidate (am_loop rounds i b divisor best)
unfolding am_loop
am_loop-IsAmCandidate zero i b divisor best h = h
am_loop-IsAmCandidate (suc rounds) i b divisor best h =
    let c = am_candidate b divisor (am_supported divisor (divisor + i)) in
    let tried : IsAmCandidate c = tried-IsAmCandidate b divisor i in
    elim (Bool-cases (i == 0 || ltb c.diff best.diff)) [
      | inl better ↦ rw better (elim (Bool-cases (c.diff == 0)) [
        | inl exact ↦ rw exact tried
        | inr off ↦ rw off (am_loop-IsAmCandidate rounds (i + 1) b divisor c tried)
      ])
      | inr worse ↦ rw worse (am_loop-IsAmCandidate rounds (i + 1) b divisor best h)
    ]

first_round : (b divisor : ℕ) (best : Candidate) → IsAmCandidate (am_loop 2 0 b divisor best)
unfolding am_loop
first_round b divisor best =
    let c = am_candidate b divisor (am_supported divisor (divisor + 0)) in
    let tried : IsAmCandidate c = tried-IsAmCandidate b divisor 0 in
    elim (Bool-cases (c.diff == 0)) [
      | inl exact ↦ rw exact tried
      | inr off ↦ rw off (am_loop-IsAmCandidate 1 1 b divisor c tried)
    ]

-- The special cases of the encoding: 1 is only reached by /1, and 0x4001 by no AM divisor.
abbrev adjusted : ℕ → ℕ
adjusted e = if e == 1 then 0 else if e == 0x4001 then 1 else e

abbrev is_code : ℕ → Bool
is_code k =
    not (is_am_fraction k)
    || (ltb (get_or frac_code k 0) 4 && get_or am_frac_eighths (get_or frac_code k 0) 0 == k)

code_table : every is_code 8 ≡ true
unfolding every
code_table = refl

-- The code of a fraction of the AM chip has two bits and stands for that fraction.
am_code :
    (k : ℕ)
    → k < 8
    → is_am_fraction k ≡ true
    → (get_or frac_code k 0 < 4) × (get_or am_frac_eighths (get_or frac_code k 0) 0 ≡ k)
am_code k h f = ground (arith, every-holds is_code 8 k h code_table)

-- The integer part n and the code f of a fraction are read back.
am_parts :
    (n f : ℕ)
    → 2 ≤ n
    → n < 0x4000
    → f < 4
    → (adjusted (n + 0x4000 * f) < 0x10000)
      × (am_eighths (adjusted (n + 0x4000 * f)) ≡ n * 8 + get_or am_frac_eighths f 0)
am_parts n f lo hi small = rw (plain, nonzero, integer, fraction) (omega arith, refl)
  where
    plain : adjusted (n + 0x4000 * f) ≡ n + 0x4000 * f
    plain = ground arith

    nonzero : (n + 0x4000 * f == 0) ≡ false
    nonzero = ground arith

    integer : (n + 0x4000 * f) % 0x4000 ≡ n
    integer = omega arith

    fraction : (n + 0x4000 * f) / 0x4000 ≡ f
    fraction = omega arith

am_encoding :
    (d : ℕ)
    → IsAmDivisor d
    → (adjusted (encode d) < 0x10000) × (am_eighths (adjusted (encode d)) ≡ d)
am_encoding d (inl one) = unfold encode in rw one (omega arith, refl)
am_encoding d (inr (lo, hi, has)) =
    let (small, inverse) = am_code (d % 8) (omega arith) has in
    let (fits, same) =
      am_parts (d / 8) (get_or frac_code (d % 8) 0) (omega arith) (omega arith) small in
    rw (encode_sum d (omega arith)) (fits, same ∙ omega (arith, inverse))

-- The register of an AM setting has 16 bits, and its rate is the one that the chip reads from them.
pub to_clkbits_am-exact :
    (b : ℕ)
    → let s = to_clkbits_am b in
      (s.encoded_divisor < 0x10000) × (s.best_baud ≡ am_rate (am_eighths s.encoded_divisor))
unfolding to_clkbits_am
to_clkbits_am-exact b =
    let zeros : Candidate = record { divisor = 0; baud = 0; diff = 0 } in
    let best = am_loop 2 0 b (am_rounded b) zeros in
    let found = first_round b (am_rounded b) zeros in
    let (fits, same) = am_encoding best.divisor found.0 in (fits, found.1 ∙ ap am_rate (sym same))
