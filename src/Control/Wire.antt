-- ===== src/Control/Wire.antt =====
-- What the control functions send, and what they leave in the context.
use libsgftdi.Base.{ℕ, ℤ, pos, is_negative, some, none, ◌≡◌, ◌<◌, arith}
use mathlib.Core.Option
use libsgftdi.Base.{if◌then◌else◌, bit_or-high_low, bit_or-low_high}
use libsgftdi.Context.{Context, Parity, StopBits, DataBits, Break}
use libsgftdi.Usb.{Host, Sys}
use libsgftdi.Control.Flush.{usb_reset, tciflush, tcoflush, usb_purge_rx_buffer}
use libsgftdi.Control.Flush.{usb_purge_tx_buffer}
use libsgftdi.Control.Line.{set_line_property2, setflowctrl, setflowctrl_xonxoff, setdtr, setrts}
use libsgftdi.Control.Line.{setdtr_rts, set_event_char, set_error_char, line_value}
use libsgftdi.Control.Mode.{set_bitmode, disable_bitbang, set_latency_timer}
use libsgftdi.Control.Command.{Command, line_field, perform, wire, refusal, effect, IsByteArgs}

abbrev pub system : {W : Type 0} → Context → W → Sys W
system c w = record { ftdi = some c; world = w }

-- A context but for the message of the last error.
abbrev pub quiet : Context → Context
quiet c = record c { error_str = none }

-- After an exchange of `cmd` with the device that answers `(r, w)`: the code, the outside world, and
-- the context, which shows the command's effect only if the device accepted it.
abbrev pub Outcome : {W : Type 0} → Command → Context → ℤ × W → ℤ × Sys W → Type 0
Outcome cmd c (r, w) (code, s) =
    (code ≡ (if is_negative r then refusal cmd else pos 0))
    × (s.world ≡ w)
    × (Option.map quiet s.ftdi ≡ some (quiet (if is_negative r then c else effect cmd c)))

-- The three switches fill disjoint fields of the value.
line_value-line_field :
    (b : DataBits) (s : StopBits) (p : Parity) (k : Break) → line_value b s p k ≡ line_field b s p k
unfolding line_value
line_value-line_field b s p k = ground arith

module _ {W : Type 0} (host : Host W) (c : Context) (dev : ℕ) (w : W)
    (is_open : c.usb_dev ≡ some dev) (small : c.index < 256) where
  abbrev Sends : Command → Type 0
  Sends cmd = Outcome cmd c (host.control_out dev (wire cmd c) w) (perform host cmd (system c w))

  -- On an open device, with arguments in range, a control function sends the request that the
  -- protocol wants, and nothing else. If the device refuses it, the function returns its error code
  -- and the context is as before, but for the message; else it returns 0, and of the context only
  -- what the command is to change has changed.
  pub perform-wire : (cmd : Command) → IsByteArgs cmd → Sends cmd
  unfolding usb_reset tciflush tcoflush usb_purge_rx_buffer usb_purge_tx_buffer setflowctrl setdtr
      setflowctrl_xonxoff setrts setdtr_rts set_event_char set_error_char set_line_property2
      set_bitmode disable_bitbang set_latency_timer
  perform-wire Command.reset h = ground arith
  perform-wire Command.flush_rx h = ground arith
  perform-wire Command.flush_tx h = ground arith
  perform-wire Command.purge_rx h = ground arith
  perform-wire Command.purge_tx h = ground arith
  perform-wire Command.bitbang_off h = ground arith
  perform-wire (Command.line b s p k) h = ground (arith, line_value-line_field b s p k)
  perform-wire (Command.flow v) h = ground arith
  perform-wire (Command.xon_xoff a b) h =
      ground (arith, bit_or-low_high 8 b a, bit_or-high_low 8 4 c.index)
  perform-wire (Command.dtr v) h = ground arith
  perform-wire (Command.rts v) h = ground arith
  perform-wire (Command.dtr_rts a b) h = ground arith
  perform-wire (Command.event_char ch on) h = ground (arith, bit_or-low_high 8 1 ch)
  perform-wire (Command.error_char ch on) h = ground (arith, bit_or-low_high 8 1 ch)
  perform-wire (Command.bitmode m v) h = ground (arith, bit_or-low_high 8 v m)
  perform-wire (Command.latency v) h = ground arith
