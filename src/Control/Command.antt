-- ===== src/Control/Command.antt =====
-- The control functions that send one request to the device, as data, with the request that the
-- chip's protocol wants from each: an independent, arithmetical description of what is sent.
use libsgftdi.Base.{ℕ, ℤ, ◌+◌, ◌*◌, ◌<◌, bit_or, is_nonzero, minus, u16, if◌then◌else◌, ◌==◌}
use libsgftdi.Context.{Context, Parity, StopBits, DataBits, Break}
use libsgftdi.Usb.{Host, Function, Setup}
use libsgftdi.Control.Flush.{usb_reset, tciflush, tcoflush, usb_purge_rx_buffer}
use libsgftdi.Control.Flush.{usb_purge_tx_buffer, forget_read}
use libsgftdi.Control.Line.{set_line_property2, setflowctrl, setflowctrl_xonxoff, setdtr, setrts}
use libsgftdi.Control.Line.{setdtr_rts, set_event_char, set_error_char}
use libsgftdi.Control.Mode.{set_bitmode, disable_bitbang, set_latency_timer}

pub data Command : Type 0 where
  reset flush_rx flush_tx purge_rx purge_tx bitbang_off : Command
  line : DataBits → StopBits → Parity → Break → Command
  flow : ℕ → Command
  xon_xoff : ℕ → ℕ → Command
  dtr rts : ℤ → Command
  dtr_rts : ℤ → ℤ → Command
  event_char error_char bitmode : ℕ → ℕ → Command
  latency : ℕ → Command

-- The function of the library that carries a command out.
abbrev pub perform : {W : Type 0} → Host W → Command → Function W ℤ
perform h Command.reset = usb_reset h
perform h Command.flush_rx = tciflush h
perform h Command.flush_tx = tcoflush h
perform h Command.purge_rx = usb_purge_rx_buffer h
perform h Command.purge_tx = usb_purge_tx_buffer h
perform h Command.bitbang_off = disable_bitbang h
perform h (Command.line b s p k) = set_line_property2 h b s p k
perform h (Command.flow v) = setflowctrl h v
perform h (Command.xon_xoff a b) = setflowctrl_xonxoff h a b
perform h (Command.dtr v) = setdtr h v
perform h (Command.rts v) = setrts h v
perform h (Command.dtr_rts a b) = setdtr_rts h a b
perform h (Command.event_char ch on) = set_event_char h ch on
perform h (Command.error_char ch on) = set_error_char h ch on
perform h (Command.bitmode mask mode) = set_bitmode h mask mode
perform h (Command.latency v) = set_latency_timer h v

-- 1 for a C truth value that is not 0.
abbrev pub bit : ℤ → ℕ
bit v = if is_nonzero v then 1 else 0

abbrev pub bit_of : ℕ → ℕ
bit_of v = if v == 0 then 0 else 1

abbrev pub packet : Context → ℕ → ℕ → ℕ → Setup
packet c r v i = record { request = r; value = v; index = i; timeout = c.usb_write_timeout }

-- The fields of the line's value as the chip reads them: the number of data bits from bit 0 on, the
-- parity from bit 8, the stop bits from bit 11 and the break in bit 14.
abbrev pub line_field : DataBits → StopBits → Parity → Break → ℕ
line_field b s p k = data_field b + parity_field p + stop_field s + break_field k
  where
    data_field : DataBits → ℕ
    data_field b = elim b [ DataBits.bits_7 ↦ 0x0007 | DataBits.bits_8 ↦ 0x0008 ]

    parity_field : Parity → ℕ
    parity_field p = elim p [
      | Parity.none ↦ 0x0000
      | Parity.odd ↦ 0x0100
      | Parity.even ↦ 0x0200
      | Parity.mark ↦ 0x0300
      | Parity.space ↦ 0x0400
    ]

    stop_field : StopBits → ℕ
    stop_field s = elim s [
      | StopBits.stop_bit_1 ↦ 0x0000
      | StopBits.stop_bit_15 ↦ 0x0800
      | StopBits.stop_bit_2 ↦ 0x1000
    ]

    break_field : Break → ℕ
    break_field k = elim k [ Break.break_off ↦ 0x0000 | Break.break_on ↦ 0x4000 ]

-- The number of the request, its value and its index, from the fields that the chip reads.
abbrev pub wire : Command → Context → Setup
wire Command.reset c = packet c 0 0 c.index
wire Command.flush_rx c = packet c 0 2 c.index
wire Command.flush_tx c = packet c 0 1 c.index
wire Command.purge_rx c = packet c 0 1 c.index
wire Command.purge_tx c = packet c 0 2 c.index
wire Command.bitbang_off c = packet c 0x0b 0 c.index
wire (Command.line b s p k) c = packet c 4 (line_field b s p k) c.index
wire (Command.flow v) c = packet c 2 0 (u16 (bit_or v c.index))
wire (Command.xon_xoff a b) c = packet c 2 (a + 0x100 * b) (0x400 + c.index)
wire (Command.dtr v) c = packet c 1 (0x100 + bit v) c.index
wire (Command.rts v) c = packet c 1 (0x200 + 2 * bit v) c.index
wire (Command.dtr_rts a b) c = packet c 1 (0x300 + 2 * bit b + bit a) c.index
wire (Command.event_char ch on) c = packet c 6 (ch + 0x100 * bit_of on) c.index
wire (Command.error_char ch on) c = packet c 7 (ch + 0x100 * bit_of on) c.index
wire (Command.bitmode mask mode) c = packet c 0x0b (mask + 0x100 * mode) c.index
wire (Command.latency v) c = packet c 9 v c.index

-- The code that reports a refused request.
abbrev pub refusal : Command → ℤ
refusal (Command.latency v) = minus 2
refusal _ = minus 1

-- What a command that succeeds changes in the context.
abbrev pub effect : Command → Context → Context
effect Command.reset c = forget_read c
effect Command.flush_rx c = forget_read c
effect Command.purge_rx c = forget_read c
effect Command.bitbang_off c = record c { bitbang_enabled = 0 }
effect (Command.bitmode mask mode) c = record c {
  bitbang_mode = mode;
  bitbang_enabled = bit_of mode;
}
effect _ c = c

-- The arguments are bytes, as their C types say; a latency of 0 is refused before anything is sent.
abbrev pub IsByteArgs : Command → Type 0
IsByteArgs (Command.xon_xoff a b) = (a < 256) × (b < 256)
IsByteArgs (Command.event_char ch on) = ch < 256
IsByteArgs (Command.error_char ch on) = ch < 256
IsByteArgs (Command.bitmode mask mode) = (mask < 256) × (mode < 256)
IsByteArgs (Command.latency v) = (0 < v) × (v < 256)
IsByteArgs _ = Unit
