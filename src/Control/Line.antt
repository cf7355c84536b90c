-- ===== src/Control/Line.antt =====
-- Line properties, flow control and the modem lines (src/ftdi.c).
use libsgftdi.Base.{ℕ, ℤ, pos, minus, is_negative, is_nonzero, bit_or, u16, ◌<<<◌, if◌then◌else◌}
use libsgftdi.Context.{Parity, StopBits, DataBits, Break}
use libsgftdi.Usb.{Host, Function, ◌>>=◌, ◌>>◌, body, pure, error_if, opened, vendor_out}

abbrev pub bits_value : DataBits → ℕ
bits_value DataBits.bits_7 = 7
bits_value DataBits.bits_8 = 8

abbrev pub parity_value : Parity → ℕ
parity_value Parity.none = 0
parity_value Parity.odd = 1
parity_value Parity.even = 2
parity_value Parity.mark = 3
parity_value Parity.space = 4

abbrev pub stop_value : StopBits → ℕ
stop_value StopBits.stop_bit_1 = 0
stop_value StopBits.stop_bit_15 = 1
stop_value StopBits.stop_bit_2 = 2

abbrev pub break_value : Break → ℕ
break_value Break.break_off = 0
break_value Break.break_on = 1

-- `value` after the three switches
unfoldable pub line_value : DataBits → StopBits → Parity → Break → ℕ
line_value bits sbit parity break_type =
    let value = bit_or (bits_value bits) (parity_value parity <<< 8) in
    let value = bit_or value (stop_value sbit <<< 11) in
    bit_or value (break_value break_type <<< 14)

abbrev dtr_value : ℤ → ℕ
dtr_value state = if is_nonzero state then bit_or 1 (1 <<< 8) else bit_or 0 (1 <<< 8)

abbrev rts_value : ℤ → ℕ
rts_value state = if is_nonzero state then bit_or 2 (2 <<< 8) else bit_or 0 (2 <<< 8)

module _ {W : Type 0} (host : Host W) where
  unfoldable pub set_line_property2 : DataBits → StopBits → Parity → Break → Function W ℤ
  set_line_property2 bits sbit parity break_type = body do
    (c, dev) ← opened (minus 2) "USB device unavailable"
    r ← vendor_out host c dev 4 (line_value bits sbit parity break_type) c.index
    error_if (is_negative r) (minus 1) "Setting new line property failed"
    pure (pos 0)

  unfoldable pub set_line_property : DataBits → StopBits → Parity → Function W ℤ
  set_line_property bits sbit parity = set_line_property2 bits sbit parity Break.break_off

  -- `flowctrl` is the 32-bit pattern of the int argument.
  unfoldable pub setflowctrl : ℕ → Function W ℤ
  setflowctrl flowctrl = body do
    (c, dev) ← opened (minus 2) "USB device unavailable"
    r ← vendor_out host c dev 2 0 (bit_or flowctrl c.index)
    error_if (is_negative r) (minus 1) "set flow control failed"
    pure (pos 0)

  unfoldable pub setflowctrl_xonxoff : ℕ → ℕ → Function W ℤ
  setflowctrl_xonxoff xon xoff = body do
    (c, dev) ← opened (minus 2) "USB device unavailable"
    let xonxoff = u16 (bit_or xon (xoff <<< 8))
    r ← vendor_out host c dev 2 xonxoff (bit_or (4 <<< 8) c.index)
    error_if (is_negative r) (minus 1) "set flow control failed"
    pure (pos 0)

  unfoldable pub setdtr : ℤ → Function W ℤ
  setdtr state = body do
    (c, dev) ← opened (minus 2) "USB device unavailable"
    r ← vendor_out host c dev 1 (dtr_value state) c.index
    error_if (is_negative r) (minus 1) "set dtr failed"
    pure (pos 0)

  unfoldable pub setrts : ℤ → Function W ℤ
  setrts state = body do
    (c, dev) ← opened (minus 2) "USB device unavailable"
    r ← vendor_out host c dev 1 (rts_value state) c.index
    error_if (is_negative r) (minus 1) "set of rts failed"
    pure (pos 0)

  unfoldable pub setdtr_rts : ℤ → ℤ → Function W ℤ
  setdtr_rts dtr rts = body do
    (c, dev) ← opened (minus 2) "USB device unavailable"
    r ← vendor_out host c dev 1 (bit_or (dtr_value dtr) (rts_value rts)) c.index
    error_if (is_negative r) (minus 1) "set of rts/dtr failed"
    pure (pos 0)

  unfoldable pub set_event_char : ℕ → ℕ → Function W ℤ
  set_event_char eventch enable = body do
    (c, dev) ← opened (minus 2) "USB device unavailable"
    let usb_val = if is_nonzero (pos enable) then bit_or eventch (1 <<< 8) else eventch
    r ← vendor_out host c dev 6 usb_val c.index
    error_if (is_negative r) (minus 1) "setting event character failed"
    pure (pos 0)

  unfoldable pub set_error_char : ℕ → ℕ → Function W ℤ
  set_error_char errorch enable = body do
    (c, dev) ← opened (minus 2) "USB device unavailable"
    let usb_val = if is_nonzero (pos enable) then bit_or errorch (1 <<< 8) else errorch
    r ← vendor_out host c dev 7 usb_val c.index
    error_if (is_negative r) (minus 1) "setting error character failed"
    pure (pos 0)
