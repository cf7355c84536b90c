-- ===== src/Control/Mode.antt =====
-- Bitbang modes, pins, the latency timer and the modem status (src/ftdi.c).
use libsgftdi.Base.{ℕ, ℤ, pos, minus, is_negative, eq_ℤ, Option, bit_or, bit_and, u8, u16, ◌<<<◌}
use libsgftdi.Base.{not, ltb, ◌==◌, get_or, if◌then◌else◌}
use libsgftdi.Usb.{Host, Function, ◌>>=◌, ◌>>◌, body, body_out, update, pure, error_if, opened}
use libsgftdi.Usb.{vendor_out, vendor_in}

module _ {W : Type 0} (host : Host W) where
  unfoldable pub set_bitmode : ℕ → ℕ → Function W ℤ
  set_bitmode bitmask mode = body do
    (c, dev) ← opened (minus 2) "USB device unavailable"
    let usb_val = u16 (bit_or bitmask (mode <<< 8))
    r ← vendor_out host c dev 0x0b usb_val c.index
    error_if (is_negative r) (minus 1)
        "unable to configure bitbang mode. Perhaps not a BM/2232C type chip?"
    update (λ c. record c { bitbang_mode = mode; bitbang_enabled = if mode == 0 then 0 else 1 })
    pure (pos 0)

  unfoldable pub disable_bitbang : Function W ℤ
  disable_bitbang = body do
    (c, dev) ← opened (minus 2) "USB device unavailable"
    r ← vendor_out host c dev 0x0b 0 c.index
    error_if (is_negative r) (minus 1) "unable to leave bitbang mode. Perhaps not a BM type chip?"
    update (λ c. record c { bitbang_enabled = 0 })
    pure (pos 0)

  unfoldable pub read_pins : Function W (ℤ × Option ℕ)
  read_pins = body_out do
    (c, dev) ← opened (minus 2) "USB device unavailable"
    (r, pins) ← vendor_in host c dev 0x0c 0 c.index 1
    error_if (not (eq_ℤ r (pos 1))) (minus 1) "read pins failed"
    pure (get_or pins 0 0)

  unfoldable pub set_latency_timer : ℕ → Function W ℤ
  set_latency_timer latency = body do
    error_if (ltb latency 1) (minus 1) "latency out of range. Only valid for 1-255"
    (c, dev) ← opened (minus 3) "USB device unavailable"
    r ← vendor_out host c dev 0x09 latency c.index
    error_if (is_negative r) (minus 2) "unable to set latency timer"
    pure (pos 0)

  unfoldable pub get_latency_timer : Function W (ℤ × Option ℕ)
  get_latency_timer = body_out do
    (c, dev) ← opened (minus 2) "USB device unavailable"
    (r, usb_val) ← vendor_in host c dev 0x0a 0 c.index 1
    error_if (not (eq_ℤ r (pos 1))) (minus 1) "reading latency timer failed"
    pure (u8 (get_or usb_val 0 0))

  unfoldable pub poll_modem_status : Function W (ℤ × Option ℕ)
  poll_modem_status = body_out do
    (c, dev) ← opened (minus 2) "USB device unavailable"
    (r, usb_val) ← vendor_in host c dev 0x05 0 c.index 2
    error_if (not (eq_ℤ r (pos 2))) (minus 1) "getting modem status failed"
    pure (u16 (bit_or (get_or usb_val 1 0 <<< 8) (bit_and (get_or usb_val 0 0) 0xff)))
