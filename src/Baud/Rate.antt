-- ===== src/Baud/Rate.antt =====
-- ftdi_convert_baudrate and ftdi_set_baudrate.
use libsgftdi.Base.{
  ℕ, zero, suc, ◌*◌, ◌/◌, ℤ, pos, negsuc, minus, is_negative, Option, none, pos_part, Bool, word,
  int_of, ltb_ℤ,
}
use libsgftdi.Base.{some, bit_or, bit_and, u16, ltb, ◌==◌, ◌||◌, if◌then◌else◌, ◌>>>◌}
use libsgftdi.Context.{ChipType, type_am, is_hi_speed, Context}
use libsgftdi.Context.{type_2232h, type_4232h, type_232h, type_bm, type_2232c, type_r, type_230x}
use libsgftdi.Usb.{Host, Action, Function, ◌>>=◌, ◌>>◌, body, update, pure, error_if, error_return}
use libsgftdi.Usb.{opened, vendor_out}
use libsgftdi.Baud.Clock.{Setting, to_clkbits, to_clkbits_am}

-- The rate that is achieved, and the two registers.
pub record Registers : Type 0 where
  pub best_baud : ℕ
  pub value : ℕ
  pub index : ℕ

abbrev pub with_clk_10 : Setting → Setting
with_clk_10 s = record s { encoded_divisor = bit_or s.encoded_divisor 0x20000 }

-- The divisor for a positive rate on the H chips: CLK/10 is switched on where it can be. The product
-- is that of two ints, which wraps.
unfoldable pub hi_speed_setting : ℕ → Setting
hi_speed_setting baudrate =
    if ltb_ℤ (pos (120000000 / 0x3fff)) (int_of (baudrate * 10))
    then with_clk_10 (to_clkbits baudrate 120000000 10)
    else to_clkbits baudrate 48000000 16

unfoldable pub setting_for : ChipType → ℕ → Setting
setting_for type_2232h = hi_speed_setting
setting_for type_4232h = hi_speed_setting
setting_for type_232h = hi_speed_setting
setting_for type_bm = λ baudrate. to_clkbits baudrate 48000000 16
setting_for type_2232c = λ baudrate. to_clkbits baudrate 48000000 16
setting_for type_r = λ baudrate. to_clkbits baudrate 48000000 16
setting_for type_230x = λ baudrate. to_clkbits baudrate 48000000 16
setting_for type_am = to_clkbits_am

-- Split into "value" and "index" values
unfoldable pub registers : ChipType → ℕ → Setting → Registers
registers chip channel s = record {
  best_baud = s.best_baud;
  value = u16 (bit_and s.encoded_divisor 0xffff);
  index =
      if is_hi_speed chip
      then bit_or (bit_and (u16 (s.encoded_divisor >>> 8)) 0xff00) channel
      else u16 (s.encoded_divisor >>> 16);
}

-- `none` is the -1 for a rate that is not positive, which sets no register.
unfoldable pub convert_baudrate : ℤ → Context → Option Registers
convert_baudrate (negsuc n) c = none
convert_baudrate (pos zero) c = none
convert_baudrate (pos (suc n)) c =
    some (registers c.chip_type c.index (setting_for c.chip_type (suc n)))

-- baudrate*4, which wraps as the int it is.
abbrev pub four_times : ℤ → ℤ
four_times baudrate = int_of (word baudrate * 4)

-- The check of the tolerance of about 5%.
abbrev pub is_too_far : ℕ → ℕ → Bool
is_too_far actual baudrate =
    ltb (actual * 2) baudrate
    || (if ltb actual baudrate
        then ltb (actual * 21) (baudrate * 20)
        else ltb (baudrate * 21) (actual * 20))

-- The rate that the divisor is computed for.
abbrev pub requested : ℤ → Context → ℤ
requested baudrate c = if c.bitbang_enabled == 0 then baudrate else four_times baudrate

module _ {W : Type 0} (host : Host W) where
  -- The registers for a rate that is positive and near enough.
  unfoldable pub checked : ℤ → Option Registers → Action W Registers
  checked baudrate none = error_return (minus 1) "Silly baudrate <= 0."
  checked baudrate (some r) = do
    error_if (r.best_baud == 0) (minus 1) "Silly baudrate <= 0."
    error_if (is_too_far r.best_baud (pos_part baudrate)) (minus 1)
        "Unsupported baudrate. Note: bitbang baudrates are automatically multiplied by 4"
    pure r

  unfoldable pub set_baudrate : ℤ → Function W ℤ
  set_baudrate baudrate = body do
    (c, dev) ← opened (minus 3) "USB device unavailable"
    let rate = requested baudrate c
    registers ← checked rate (convert_baudrate rate c)
    r ← vendor_out host c dev 3 registers.value registers.index
    error_if (is_negative r) (minus 2) "Setting new baudrate failed"
    update (λ c. record c { baudrate = rate })
    pure (pos 0)
