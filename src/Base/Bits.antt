-- ===== src/Base/Bits.antt =====
-- Machine words: casts to the fixed widths, shifts, and what `|` and `&` do to disjoint fields.
mod Digit
use Digit.{bit_or-digit, bit_and-digit}
use Prim.Native.Nat.{ℕ, zero, suc, ◌+◌, ◌-◌, ◌*◌, ◌/◌, ◌%◌, ◌^◌, ◌≤◌, ◌<◌, bit_and, bit_or}
use Prim.Native.Nat.{bit_or-bitwise}
use mathlib.Core.Path.{◌≡◌, refl, sym, ap, ap₂, ◌∙◌}
use native.Mathlib.Omega.{arith}
use native.Mathlib.Nat.{pow-suc, one-le-pow}

abbrev pub u8 : ℕ → ℕ
u8 n = n % 256

abbrev pub u16 : ℕ → ℕ
u16 n = n % 65536

abbrev pub u32 : ℕ → ℕ
u32 n = n % 4294967296

infixl 75 ◌<<<◌ ◌>>>◌
abbrev pub ◌<<<◌ : ℕ → ℕ → ℕ
x <<< k = x * 2 ^ k

abbrev pub ◌>>>◌ : ℕ → ℕ → ℕ
x >>> k = x / 2 ^ k

-- Zero is neutral for `|` and absorbs for `&`, by halving with a bound on the number.
or_zero_upto : (n a : ℕ) → a ≤ n → bit_or a 0 ≡ a
or_zero_upto n zero h = refl
or_zero_upto zero (suc a) h = absurd (omega arith)
or_zero_upto (suc n) (suc a) h =
    omega (arith, bit_or-digit (suc a) 0, or_zero_upto n (suc a / 2) (omega arith))

and_zero_upto : (n a : ℕ) → a ≤ n → bit_and a 0 ≡ 0
and_zero_upto n zero h = refl
and_zero_upto zero (suc a) h = absurd (omega arith)
and_zero_upto (suc n) (suc a) h =
    omega (arith, bit_and-digit (suc a) 0, and_zero_upto n (suc a / 2) (omega arith))

pub bit_or-zero : (a : ℕ) → bit_or a 0 ≡ a
bit_or-zero a = or_zero_upto a a (omega arith)

pub bit_and-zero : (a : ℕ) → bit_and a 0 ≡ 0
bit_and-zero a = and_zero_upto a a (omega arith)

-- Halving takes one place off a shift.
double_pow : (k q : ℕ) → q * 2 ^ suc k ≡ 2 * (q * 2 ^ k)
double_pow k q = omega (arith, ap (λ (t : ℕ). q * t) (pow-suc 2 k))

-- `|` of a number shifted by `k` places and one below `2 ^ k` is their sum, in either order.
pub bit_or-high_low : (k hi lo : ℕ) → lo < 2 ^ k → bit_or (hi * 2 ^ k) lo ≡ hi * 2 ^ k + lo
bit_or-high_low zero hi lo h = ground (arith, bit_or-zero hi)
bit_or-high_low (suc k) hi lo h = omega (
  arith,
  double_pow k hi,
  pow-suc 2 k,
  bit_or-digit (hi * 2 ^ suc k) lo,
  ap (λ (t : ℕ). bit_or t (lo / 2)) (half k),
  bit_or-high_low k hi (lo / 2) (omega (arith, pow-suc 2 k)),
)
  where
    half : (k : ℕ) → hi * 2 ^ suc k / 2 ≡ hi * 2 ^ k
    half k = omega (arith, double_pow k hi)

pub bit_or-low_high : (k hi lo : ℕ) → lo < 2 ^ k → bit_or lo (hi * 2 ^ k) ≡ hi * 2 ^ k + lo
bit_or-low_high zero zero zero h = refl
bit_or-low_high zero (suc hi) zero h = omega (arith, bit_or-bitwise 0 (suc hi * 1))
bit_or-low_high zero hi (suc lo) h = absurd (omega arith)
bit_or-low_high (suc k) hi lo h = omega (
  arith,
  double_pow k hi,
  pow-suc 2 k,
  bit_or-digit lo (hi * 2 ^ suc k),
  ap (λ (t : ℕ). bit_or (lo / 2) t) (half k),
  bit_or-low_high k hi (lo / 2) (omega (arith, pow-suc 2 k)),
)
  where
    half : (k : ℕ) → hi * 2 ^ suc k / 2 ≡ hi * 2 ^ k
    half k = omega (arith, double_pow k hi)

-- `&` with `k` ones keeps the low `k` bits.
low_part : (k hi lo : ℕ) → lo < 2 ^ k → bit_and (hi * 2 ^ k + lo) (2 ^ k - 1) ≡ lo
low_part zero hi lo h = omega (arith, bit_and-zero (hi * 1 + lo))
low_part (suc k) hi lo h = omega (
  arith,
  double_pow k hi,
  pow-suc 2 k,
  one-le-pow k 2,
  bit_and-digit (hi * 2 ^ suc k + lo) (2 ^ suc k - 1),
  ap₂ bit_and first second,
  low_part k hi (lo / 2) (omega (arith, pow-suc 2 k)),
)
  where
    first : (hi * 2 ^ suc k + lo) / 2 ≡ hi * 2 ^ k + lo / 2
    first = omega (arith, double_pow k hi)

    second : (2 ^ suc k - 1) / 2 ≡ 2 ^ k - 1
    second = omega (arith, pow-suc 2 k, one-le-pow k 2)

pub bit_and-ones : (k a : ℕ) → bit_and a (2 ^ k - 1) ≡ a % 2 ^ k
bit_and-ones k a =
    ap (λ t. bit_and t (2 ^ k - 1)) (sym (parts k))
    ∙ low_part k (a / 2 ^ k) (a % 2 ^ k) (omega (arith, one-le-pow k 2))
  where
    parts : (k : ℕ) → a / 2 ^ k * 2 ^ k + a % 2 ^ k ≡ a
    parts k = grind arith
