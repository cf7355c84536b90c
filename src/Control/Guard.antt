-- ===== src/Control/Guard.antt =====
-- The control functions on a context that is NULL or has no open device.
use mathlib.Core.Option
use libsgftdi.Base.{ℤ, minus, none, some, Option, ◌≡◌, arith, ◌==◌, if◌then◌else◌}
use libsgftdi.Context.{Context}
use libsgftdi.Usb.{Host, Sys}
use libsgftdi.Control.Flush.{usb_reset, tciflush, tcoflush, usb_purge_rx_buffer}
use libsgftdi.Control.Flush.{usb_purge_tx_buffer}
use libsgftdi.Control.Line.{set_line_property2, setflowctrl, setflowctrl_xonxoff, setdtr, setrts}
use libsgftdi.Control.Line.{setdtr_rts, set_event_char, set_error_char}
use libsgftdi.Control.Mode.{set_bitmode, disable_bitbang, set_latency_timer}
use libsgftdi.Control.Command.{Command, perform}
use libsgftdi.Control.Wire.{quiet}

-- ftdi == NULL || ftdi->usb_dev == NULL
abbrev pub IsUnavailable : Option Context → Type 0
IsUnavailable none = Unit
IsUnavailable (some c) = c.usb_dev ≡ none

-- The code for a device that is not there. A latency of 0 is reported first.
abbrev pub unavailable_code : Command → ℤ
unavailable_code (Command.latency v) = if v == 0 then minus 1 else minus 3
unavailable_code _ = minus 2

-- Nothing reaches the outside world, and of the context at most the message changes.
abbrev pub Untouched : {W : Type 0} → Sys W → Sys W → Type 0
Untouched s s' = (s'.world ≡ s.world) × (Option.map quiet s'.ftdi ≡ Option.map quiet s.ftdi)

module _ {W : Type 0} (host : Host W) where
  abbrev Declined : Command → Sys W → Type 0
  Declined cmd s =
      ((perform host cmd s).0 ≡ unavailable_code cmd) × Untouched s (perform host cmd s).1

  on_null : (cmd : Command) (w : W) → Declined cmd (record { ftdi = none; world = w })
  unfolding usb_reset tciflush tcoflush usb_purge_rx_buffer usb_purge_tx_buffer setflowctrl setdtr
      setflowctrl_xonxoff setrts setdtr_rts set_event_char set_error_char set_line_property2
      set_bitmode disable_bitbang set_latency_timer
  on_null (Command.latency v) w = ground arith
  on_null _ w = ground arith

  on_closed :
      (cmd : Command) (c : Context) (w : W)
      → c.usb_dev ≡ none
      → Declined cmd (record { ftdi = some c; world = w })
  unfolding usb_reset tciflush tcoflush usb_purge_rx_buffer usb_purge_tx_buffer setflowctrl setdtr
      setflowctrl_xonxoff setrts setdtr_rts set_event_char set_error_char set_line_property2
      set_bitmode disable_bitbang set_latency_timer
  on_closed (Command.latency v) c w h = ground arith
  on_closed _ c w h = ground arith

  declined :
      (cmd : Command) (o : Option Context) (w : W)
      → IsUnavailable o
      → Declined cmd (record { ftdi = o; world = w })
  declined cmd none w h = on_null cmd w
  declined cmd (some c) w h = on_closed cmd c w h

  -- On a NULL context or one with no open device every control function returns its documented
  -- code, sends nothing, and leaves the context as it was but for the message.
  pub perform-unavailable : (cmd : Command) (s : Sys W) → IsUnavailable s.ftdi → Declined cmd s
  perform-unavailable cmd s h = declined cmd s.ftdi s.world h
