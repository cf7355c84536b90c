-- ===== src/Baud/Set.antt =====
-- ftdi_set_baudrate: the rate that the chip is set to.
use mathlib.Core.Option
use libsgftdi.Base.{ℕ, zero, suc, ◌+◌, ◌*◌, ◌/◌, ◌%◌, ◌≤◌, ◌<◌, ◌≡◌, refl, arith, ◌∙◌, ap, sym, ◌⊎◌}
use libsgftdi.Base.{◌==◌, if◌then◌else◌, true, false, Bool-cases, inl, inr, some}
use libsgftdi.Base.{
  ◌-◌, ltb, false, bit_and-ones, pos_part, neg_part, int_of, ℤ, pos, negsuc, minus, is_negative,
  String,
}
use libsgftdi.Context.{ChipType, type_am, type_2232h, type_4232h}
use libsgftdi.Context.{type_232h, is_hi_speed, Context}
use libsgftdi.Usb.{Host, Sys, done, error_return}
use libsgftdi.Control.Command.{packet}
use libsgftdi.Control.Wire.{system, quiet}
use libsgftdi.Baud.Rate.{
  Registers, hi_speed_setting, setting_for, registers, convert_baudrate, checked, requested,
}
use libsgftdi.Baud.Rate.{set_baudrate, is_too_far}
use libsgftdi.Baud.Register.{to_clkbits_c-IsExact, rate, eighths}
use libsgftdi.Baud.Am.{to_clkbits_am-exact, am_rate, am_eighths}
use libsgftdi.Baud.Chip.{chip_rate, hi_speed_rate, IsHiSpeed, hi_speed_setting-IsHiSpeed}
use libsgftdi.Baud.Chip.{registers_low, registers_high}
use libsgftdi.Baud.Clock.{Setting, to_clkbits, to_clkbits_am}

hi_speed_reads :
    (s : Setting) (channel value index : ℕ)
    → IsHiSpeed s
    → channel < 256
    → value ≡ s.encoded_divisor % 0x10000
    → index ≡ s.encoded_divisor / 0x10000 * 256 + channel
    → s.best_baud ≡ hi_speed_rate value index
hi_speed_reads s channel value index h small v i = h.1 ∙ (λ k. reads (clock k) (divisor k))
  where
    reads : ℕ → ℕ → ℕ
    reads bit e = rate (if bit == 1 then 192000000 else 48000000) (eighths e)

    clock : s.encoded_divisor / 0x20000 ≡ index / 512 % 2
    clock = omega (arith, h.0)

    divisor : s.encoded_divisor % 0x20000 ≡ value + 0x10000 * (index / 256 % 2)
    divisor = omega (arith, h.0)

registers_value :
    (channel : ℕ) (s : Setting)
    → s.encoded_divisor < 0x10000
    → (registers type_am channel s).value ≡ s.encoded_divisor
unfolding registers
registers_value channel s fits = omega (arith, bit_and-ones 16 s.encoded_divisor)

fast :
    (chip : ChipType) (channel b : ℕ)
    → channel < 256
    → 0 < b
    → is_hi_speed chip ≡ true
    → let r = registers chip channel (hi_speed_setting b) in
      r.best_baud ≡ hi_speed_rate r.value r.index
unfolding registers
fast chip channel b small h hs =
    let s = hi_speed_setting b in
    let r = registers chip channel s in
    let e = hi_speed_setting-IsHiSpeed b h in
    let (v, i) = registers_high chip channel s hs small e.0 in
    hi_speed_reads s channel r.value r.index e small v i

pub registers-chip_rate :
    (chip : ChipType) (channel b : ℕ)
    → channel < 256
    → 0 < b
    → let r = registers chip channel (setting_for chip b) in
      r.best_baud ≡ chip_rate chip r.value r.index
unfolding registers setting_for
registers-chip_rate type_am channel b small h =
    let e = to_clkbits_am-exact b in
    e.1 ∙ ap (λ w. am_rate (am_eighths w)) (sym (registers_value channel (to_clkbits_am b) e.0))
registers-chip_rate type_2232h channel b small h = fast type_2232h channel b small h refl
registers-chip_rate type_4232h channel b small h = fast type_4232h channel b small h refl
registers-chip_rate type_232h channel b small h = fast type_232h channel b small h refl
registers-chip_rate chip channel b small h =
    let e = to_clkbits_c-IsExact b h in
    e.1
    ∙ ap (λ w. rate 48000000 (eighths w))
        (sym (registers_low chip channel (to_clkbits b 48000000 16) refl e.0))

-- At most about 5% off, either way.
abbrev pub IsNear : ℕ → ℕ → Type 0
IsNear actual wanted = (wanted * 20 ≤ actual * 21) × (actual * 20 ≤ wanted * 21)

not_far : (actual b : ℕ) → is_too_far actual b ≡ false → IsNear actual b
not_far actual b h = ground arith

-- The check of a positive rate refuses the registers, or finds them near.
judged :
    {W : Type 0} (host : Host W) (b : ℕ) (r : Registers) (s : Sys W)
    → ((m : String) × (checked host (pos b) (some r) s ≡ error_return (minus 1) m s))
      ⊎ (IsNear r.best_baud b × (checked host (pos b) (some r) s ≡ (done r, s)))
unfolding checked
judged host b r s = elim (Bool-cases (r.best_baud == 0)) [
  | inl z ↦ inl ("Silly baudrate <= 0.", rw z)
  | inr nz ↦ elim (Bool-cases (is_too_far r.best_baud b)) [
    | inl far ↦ inl (
      "Unsupported baudrate. Note: bitbang baudrates are automatically multiplied by 4",
      rw (nz, far),
    )
    | inr near ↦ inr (not_far r.best_baud b near, rw (nz, near))
  ]
]

-- Either the check refuses the rate, or it is positive and the registers are those of a near rate.
checked_lem :
    {W : Type 0} (host : Host W) (n : ℤ) (c : Context) (s : Sys W)
    → ((m : String) × (checked host n (convert_baudrate n c) s ≡ error_return (minus 1) m s))
      ⊎ ((b : ℕ) × (r : Registers) × (n ≡ pos b)
          × (0 < b)
          × (r ≡ registers c.chip_type c.index (setting_for c.chip_type b))
          × IsNear r.best_baud b
          × (checked host n (convert_baudrate n c) s ≡ (done r, s)))
unfolding checked convert_baudrate
checked_lem host (negsuc n) c s = inl ("Silly baudrate <= 0.", refl)
checked_lem host (pos zero) c s = inl ("Silly baudrate <= 0.", refl)
checked_lem host (pos (suc n)) c s =
    let r = registers c.chip_type c.index (setting_for c.chip_type (suc n)) in
    elim (judged host (suc n) r s) [
      | inl refused ↦ inl refused
      | inr (near, e) ↦ inr (suc n, r, refl, omega arith, refl, near, e)
    ]

-- The registers are 16-bit words, so that libusb is handed what was computed.
setting_for-lt : (chip : ChipType) (b : ℕ) → 0 < b → (setting_for chip b).encoded_divisor < 0x40000
unfolding setting_for
setting_for-lt type_am b h = omega (arith, (to_clkbits_am-exact b).0)
setting_for-lt type_2232h b h = (hi_speed_setting-IsHiSpeed b h).0
setting_for-lt type_4232h b h = (hi_speed_setting-IsHiSpeed b h).0
setting_for-lt type_232h b h = (hi_speed_setting-IsHiSpeed b h).0
setting_for-lt _ b h = omega (arith, (to_clkbits_c-IsExact b h).0)

registers-lt :
    (chip : ChipType) (channel : ℕ) (s : Setting)
    → channel < 256
    → s.encoded_divisor < 0x40000
    → ((registers chip channel s).value < 65536) × ((registers chip channel s).index < 65536)
registers-lt chip channel s small fits = elim (Bool-cases (is_hi_speed chip)) [
  | inl high ↦ omega (arith, registers_high chip channel s high small fits)
  | inr low ↦ words low
]
  where
    words :
        is_hi_speed chip ≡ false
        → ((registers chip channel s).value < 65536) × ((registers chip channel s).index < 65536)
    words low = unfold registers in ground arith

-- The factor of bitbang mode, and the rate that is wanted.
abbrev pub factor : Context → ℕ
factor c = if c.bitbang_enabled == 0 then 1 else 4

abbrev pub wanted : ℤ → Context → ℤ
wanted (pos n) c = pos (n * factor c)
wanted (negsuc n) c = minus (suc n * factor c)

-- No product of the code overflows an int: neither the rate times the factor nor ten times that.
abbrev pub IsInt : ℤ → Context → Type 0
IsInt n c = (pos_part n * factor c * 10 < 2147483648) × (neg_part n * factor c ≤ 2147483648)

times_4 : (n : ℕ) → n * 4 * 10 < 2147483648 → int_of (n % 4294967296 * 4) ≡ pos (n * 4)
times_4 n h = ground arith

minus_4 :
    (n : ℕ)
    → suc n * 4 ≤ 2147483648
    → int_of ((4294967295 - n % 4294967296) * 4) ≡ minus (suc n * 4)
minus_4 n h = rw (low, test) (ap minus back)
  where
    low : (4294967295 - n % 4294967296) * 4 % 4294967296 ≡ 4294967296 - suc n * 4
    low = omega arith

    test : ltb (4294967296 - suc n * 4) 2147483648 ≡ false
    test = ground arith

    back : 4294967296 - (4294967296 - suc n * 4) ≡ suc n * 4
    back = omega arith

requested-wanted : (n : ℤ) (c : Context) → IsInt n c → requested n c ≡ wanted n c
requested-wanted (pos n) c (hi, lo) = elim (Bool-cases (c.bitbang_enabled == 0)) [
  | inl off ↦ rw off (ap pos once)
  | inr on ↦ rw on (times_4 n (rw on at hi))
]
  where
    once : n ≡ n * 1
    once = omega arith
requested-wanted (negsuc n) c (hi, lo) = elim (Bool-cases (c.bitbang_enabled == 0)) [
  | inl off ↦ rw off (ap minus once)
  | inr on ↦ rw on (minus_4 n (rw on at lo))
]
  where
    once : suc n ≡ suc n * 1
    once = omega arith

module _ {W : Type 0} (host : Host W) (c : Context) (dev : ℕ) (w : W)
    (is_open : c.usb_dev ≡ some dev) (small : c.index < 256) where
  -- The request for a rate was refused without a transfer.
  abbrev pub Refused : ℤ × Sys W → Type 0
  Refused (code, s) = (code ≡ minus 1) × (s.world ≡ w) × (Option.map quiet s.ftdi ≡ some (quiet c))

  -- Two registers were sent, which make the chip run near the rate `b`.
  abbrev pub Programs : ℕ → ℕ → ℕ → ℤ × Sys W → Type 0
  Programs b value index (code, s) =
      let (r, w') = host.control_out dev (packet c 3 value index) w in
      IsNear (chip_rate c.chip_type value index) b
      × (code ≡ (if is_negative r then minus 2 else pos 0))
      × (s.world ≡ w')
      × (Option.map quiet s.ftdi
          ≡ some (quiet (if is_negative r then c else record c { baudrate = pos b })))

  sent :
      (n : ℤ) (b : ℕ) (r : Registers)
      → requested n c ≡ pos b
      → checked host (requested n c) (convert_baudrate (requested n c) c) (system c w)
        ≡ (done r, system c w)
      → (r.value < 65536) × (r.index < 65536)
      → IsNear (chip_rate c.chip_type r.value r.index) b
      → Programs b r.value r.index (set_baudrate host n (system c w))
  unfolding set_baudrate
  sent n b r e ok (fits_value, fits_index) near =
      (near, ground (arith, ok, e), ground (arith, ok, e), ground (arith, ok, e))

  -- On an open device, for any rate whose products, by four in bitbang mode and that by ten, fit an int:
  -- either nothing is sent, the code is -1 and the context is as before but for the message; or the rate
  -- (four times the argument in bitbang mode) is positive, and one request is sent with registers that
  -- make the chip run within 5% of it, where a refusal by the device gives -2 and no change, and else the
  -- rate is recorded and the code is 0.
  pub set_baudrate_lem :
      (n : ℤ)
      → IsInt n c
      → Refused (set_baudrate host n (system c w))
        ⊎ ((b : ℕ) × (value : ℕ) × (index : ℕ) × (wanted n c ≡ pos b)
            × Programs b value index (set_baudrate host n (system c w)))
  unfolding set_baudrate
  set_baudrate_lem n fits = elim (checked_lem host (requested n c) c (system c w)) [
    | inl (m, e) ↦ inl (ground (arith, e))
    | inr (b, r, e, positive, re, near, ok) ↦ inr (
      b,
      r.value,
      r.index,
      sym (requested-wanted n c fits) ∙ e,
      sent n b r e ok
          (rw re (
            registers-lt c.chip_type c.index (setting_for c.chip_type b) small
              (setting_for-lt _ b positive)))
          (rw re
            (rw (registers-chip_rate c.chip_type c.index b small positive) at (rw re at near))),
    )
  ]
