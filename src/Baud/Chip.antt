-- ===== src/Baud/Chip.antt =====
-- The registers as the chip reads them, for each type of chip, and what ftdi_set_baudrate sets.
use libsgftdi.Base.{
  Bool, ℕ, pos, ltb_ℤ, int_of, ◌+◌, ◌*◌, ◌/◌, ◌%◌, ◌<◌, ◌≡◌, refl, arith, ◌≤◌, ◌==◌,
}
use libsgftdi.Base.{if◌then◌else◌, ◌∙◌, ap}
use libsgftdi.Base.{
  bit_or, bit_and, bit_and-ones, bit_or-low_high, bit_or-high_low, Bool-cases, true, false, every,
  every-holds, ==_iff, inl, inr, ◌^◌,
}
use libsgftdi.Context.{ChipType, type_am, type_2232h, type_4232h}
use libsgftdi.Context.{type_232h, is_hi_speed}
use libsgftdi.Baud.Clock.{Setting}
use libsgftdi.Baud.Rate.{hi_speed_setting, with_clk_10, registers}
use libsgftdi.Baud.Register.{eighths, rate, IsExact, to_clkbits_c-IsExact, to_clkbits_h-IsExact}
use libsgftdi.Baud.Am.{am_rate, am_eighths}

abbrev pub hi_speed_rate : ℕ → ℕ → ℕ
hi_speed_rate value index =
    rate (if index / 512 % 2 == 1 then 192000000 else 48000000)
      (eighths (value + 0x10000 * (index / 256 % 2)))

-- The rate that a chip runs at. The H chips have bit 16 of the divisor in bit 8 of the index and the
-- switch of the clock in bit 9; the AM chip has 16 bits, all in the value; the others have bit 16 in
-- bit 0.
abbrev pub chip_rate : ChipType → ℕ → ℕ → ℕ
chip_rate type_2232h = hi_speed_rate
chip_rate type_4232h = hi_speed_rate
chip_rate type_232h = hi_speed_rate
chip_rate type_am = λ value index. am_rate (am_eighths value)
chip_rate _ = λ value index. rate 48000000 (eighths (value + 0x10000 * index))

-- What the setting of a rate on an H chip comes to: the divisor, and whether CLK/10 is on.
abbrev pub IsHiSpeed : Setting → Type 0
IsHiSpeed s =
    (s.encoded_divisor < 0x40000)
    × (s.best_baud
        ≡ rate (if s.encoded_divisor / 0x20000 == 1 then 192000000 else 48000000)
            (eighths (s.encoded_divisor % 0x20000)))

with_clk_10-IsHiSpeed : (s : Setting) → IsExact 192000000 s → IsHiSpeed (with_clk_10 s)
with_clk_10-IsHiSpeed s h =
    rw (bit_or-low_high 17 1 s.encoded_divisor h.0)
      (omega (arith, h.0), rw (quotient, remainder) h.1)
  where
    quotient : (1 * 2 ^ 17 + s.encoded_divisor) / 0x20000 ≡ 1
    quotient = omega (arith, h.0)

    remainder : (1 * 2 ^ 17 + s.encoded_divisor) % 0x20000 ≡ s.encoded_divisor
    remainder = omega (arith, h.0)

low-IsHiSpeed : (s : Setting) → IsExact 48000000 s → IsHiSpeed s
low-IsHiSpeed s h = (omega (arith, h.0), rw (quotient, remainder) h.1)
  where
    quotient : s.encoded_divisor / 0x20000 ≡ 0
    quotient = omega (arith, h.0)

    remainder : s.encoded_divisor % 0x20000 ≡ s.encoded_divisor
    remainder = omega (arith, h.0)

wide : (b : ℕ) → ltb_ℤ (pos 7324) (int_of (b * 10)) ≡ true → 733 ≤ b
wide b h = ground arith

pub hi_speed_setting-IsHiSpeed : (b : ℕ) → 0 < b → IsHiSpeed (hi_speed_setting b)
unfolding hi_speed_setting
hi_speed_setting-IsHiSpeed b h = elim (Bool-cases (ltb_ℤ (pos 7324) (int_of (b * 10)))) [
  | inl fast ↦ rw fast (with_clk_10-IsHiSpeed _ (to_clkbits_h-IsExact b (wide b fast)))
  | inr slow ↦ rw slow (low-IsHiSpeed _ (to_clkbits_c-IsExact b h))
]

pub registers_low :
    (chip : ChipType) (channel : ℕ) (s : Setting)
    → is_hi_speed chip ≡ false
    → s.encoded_divisor < 0x20000
    → let r = registers chip channel s in r.value + 0x10000 * r.index ≡ s.encoded_divisor
unfolding registers
registers_low chip channel s low fits = ground (arith, bit_and-ones 16 s.encoded_divisor)

abbrev is_masked : ℕ → Bool
is_masked x = bit_and x 0xff00 == x / 256 * 256

mask_table : every is_masked 1024 ≡ true
unfolding every
mask_table = refl

mask_high : (x : ℕ) → x < 1024 → bit_and x 0xff00 ≡ x / 256 * 256
mask_high x h = (==_iff _ _).0 (every-holds is_masked 1024 x h mask_table)

pub registers_high :
    (chip : ChipType) (channel : ℕ) (s : Setting)
    → is_hi_speed chip ≡ true
    → channel < 256
    → s.encoded_divisor < 0x40000
    → let r = registers chip channel s in
      (r.value ≡ s.encoded_divisor % 0x10000)
      × (r.index ≡ s.encoded_divisor / 0x10000 * 256 + channel)
unfolding registers
registers_high chip channel s high small fits = rw high (
  omega (arith, bit_and-ones 16 s.encoded_divisor),
  ap (λ t. bit_or (bit_and t 0xff00) channel) narrow
      ∙ ap (λ t. bit_or t channel) (mask_high (s.encoded_divisor / 256) (omega arith))
      ∙ omega (arith, bit_or-high_low 8 (s.encoded_divisor / 256 / 256) channel small),
)
  where
    narrow : s.encoded_divisor / 256 % 65536 ≡ s.encoded_divisor / 256
    narrow = omega arith
