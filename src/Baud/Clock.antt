-- ===== src/Baud/Clock.antt =====
-- ftdi_to_clkbits_AM and ftdi_to_clkbits: the divisor nearest to a rate, and its encoding. Both are
-- called with a positive rate only.
use libsgftdi.Base.{ℕ, zero, suc, ◌+◌, ◌-◌, ◌*◌, ◌/◌, List, [], ◌∷◌, get_or, u32, ◌||◌}
use libsgftdi.Base.{bit_or, bit_and, ltb, leb, ◌==◌, if◌then◌else◌, ◌<<<◌, ◌>>>◌}

abbrev pub frac_code : List ℕ
frac_code = 0 ∷ 3 ∷ 2 ∷ 4 ∷ 1 ∷ 5 ∷ 6 ∷ 7 ∷ []

abbrev pub am_adjust_up : List ℕ
am_adjust_up = 0 ∷ 0 ∷ 0 ∷ 1 ∷ 0 ∷ 3 ∷ 2 ∷ 1 ∷ []

abbrev am_adjust_dn : List ℕ
am_adjust_dn = 0 ∷ 0 ∷ 0 ∷ 1 ∷ 0 ∷ 1 ∷ 2 ∷ 3 ∷ []

-- (divisor >> 3) | (frac_code[divisor & 7] << 14)
unfoldable pub encode : ℕ → ℕ
encode divisor = bit_or (divisor >>> 3) (get_or frac_code (bit_and divisor 7) 0 <<< 14)

-- The rate that is achieved, and the divisor's encoding.
pub record Setting : Type 0 where
  pub best_baud : ℕ
  pub encoded_divisor : ℕ

-- A divisor that has been tried, the rate that it gives, and how far that is from the request.
pub record Candidate : Type 0 where
  pub divisor : ℕ
  pub baud : ℕ
  pub diff : ℕ

-- Round up to a divisor that the AM chip has.
unfoldable pub am_supported : ℕ → ℕ → ℕ
am_supported divisor try_divisor =
    if leb try_divisor 8
    then 8
    else if ltb divisor 16
    then 16
    else let try_divisor = try_divisor + get_or am_adjust_up (bit_and try_divisor 7) 0 in
      if ltb 0x1fff8 try_divisor then 0x1fff8 else try_divisor

unfoldable pub am_candidate : ℕ → ℕ → ℕ → Candidate
am_candidate baudrate divisor try_divisor =
    let estimate = (24000000 + try_divisor / 2) / try_divisor in
    record {
      divisor = try_divisor;
      baud = estimate;
      diff = if ltb estimate baudrate then baudrate - estimate else estimate - baudrate;
    }

-- The loop over `i`, with `rounds` left; it ends early on an exact rate.
unfoldable pub am_loop : ℕ → ℕ → ℕ → ℕ → Candidate → Candidate
am_loop zero i baudrate divisor best = best
am_loop (suc rounds) i baudrate divisor best =
    let c = am_candidate baudrate divisor (am_supported divisor (divisor + i)) in
    let take_it = am_loop rounds (i + 1) baudrate divisor c in
    let leave_it = am_loop rounds (i + 1) baudrate divisor best in
    if i == 0 || ltb c.diff best.diff then (if c.diff == 0 then c else take_it) else leave_it

unfoldable pub am_rounded : ℕ → ℕ
am_rounded baudrate =
    let divisor = 24000000 / baudrate in divisor - get_or am_adjust_dn (bit_and divisor 7) 0

unfoldable pub to_clkbits_am : ℕ → Setting
unfolding am_rounded
to_clkbits_am baudrate =
    let best =
      am_loop 2 0 baudrate (am_rounded baudrate) (record { divisor = 0; baud = 0; diff = 0 }) in
    let encoded = encode best.divisor in
    record {
      best_baud = best.baud;
      encoded_divisor = if encoded == 1 then 0 else if encoded == 0x4001 then 1 else encoded;
    }

-- Halve, rounding up.
abbrev pub half_up : ℕ → ℕ
half_up n = if bit_and n 1 == 0 then n / 2 else n / 2 + 1

unfoldable pub best_divisor : ℕ → ℕ → ℕ → ℕ
best_divisor baudrate clk clk_div =
    let best = half_up (u32 (clk * 16) / clk_div / baudrate) in
    if ltb 0x20000 best then 0x1ffff else best

unfoldable pub to_clkbits : ℕ → ℕ → ℕ → Setting
to_clkbits baudrate clk clk_div =
    if leb (clk / clk_div) baudrate
    then record { best_baud = clk / clk_div; encoded_divisor = 0 }
    else if leb (clk / (clk_div + clk_div / 2)) baudrate
    then record { best_baud = clk / (clk_div + clk_div / 2); encoded_divisor = 1 }
    else if leb (clk / (2 * clk_div)) baudrate
    then record { best_baud = clk / (2 * clk_div); encoded_divisor = 2 }
    else let divisor = best_divisor baudrate clk clk_div in
      record {
        best_baud = half_up (u32 (clk * 16) / clk_div / divisor);
        encoded_divisor = encode divisor;
      }
