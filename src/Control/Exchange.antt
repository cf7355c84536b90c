-- ===== src/Control/Exchange.antt =====
-- Flushing both directions, and the functions that read from the device.
use mathlib.Core.Option
use libsgftdi.Base.{
  ℕ, pos, minus, is_negative, some, none, ◌≡◌, ◌<◌, ◌+◌, ◌*◌, arith, Option, ℤ, List,
}
use libsgftdi.Base.{if◌then◌else◌, eq_ℤ, get_or, bit_or-high_low, bit_and-ones}
use libsgftdi.Context.{Context}
use libsgftdi.Usb.{Host, Sys}
use libsgftdi.Control.Flush.{tciflush, tcoflush, usb_purge_rx_buffer, usb_purge_tx_buffer}
use libsgftdi.Control.Flush.{tcioflush, usb_purge_buffers, forget_read}
use libsgftdi.Control.Mode.{poll_modem_status}
use libsgftdi.Control.Command.{packet}
use libsgftdi.Control.Wire.{system, quiet}

-- A context but for the message and the position in the read buffer.
abbrev pub settled : Context → Context
settled c = forget_read (quiet c)

module _ {W : Type 0} (host : Host W) where
  -- The deprecated ftdi_usb_purge_buffers sends what ftdi_tcioflush sends and returns the same code,
  -- on every state; the contexts then differ at most in the message and in what is kept of a read.
  pub usb_purge_buffers-tcioflush :
      (s : Sys W)
      → ((usb_purge_buffers host s).0 ≡ (tcioflush host s).0)
        × ((usb_purge_buffers host s).1.world ≡ (tcioflush host s).1.world)
        × (Option.map settled (usb_purge_buffers host s).1.ftdi
            ≡ Option.map settled (tcioflush host s).1.ftdi)
  unfolding usb_purge_buffers tcioflush tciflush tcoflush usb_purge_rx_buffer usb_purge_tx_buffer
  usb_purge_buffers-tcioflush s = ground arith

module _ {W : Type 0} (host : Host W) (c : Context) (dev : ℕ) (w : W)
    (is_open : c.usb_dev ≡ some dev) (small : c.index < 256) where
  -- ftdi_tcioflush asks for the transmit flush, and only if that is accepted for the receive flush;
  -- its code says which was refused, and the read buffer is emptied exactly when both are accepted.
  pub tcioflush_order :
      let (r1, w1) = host.control_out dev (packet c 0 1 c.index) w in
      let (r2, w2) = host.control_out dev (packet c 0 2 c.index) w1 in
      let (code, s) = tcioflush host (system c w) in
      (code ≡ (if is_negative r1 then minus 1 else if is_negative r2 then minus 2 else pos 0))
      × (s.world ≡ (if is_negative r1 then w1 else w2))
      × (Option.map quiet s.ftdi
          ≡ some
              (quiet (if is_negative r1 then c else if is_negative r2 then c else forget_read c)))
  unfolding tcioflush tciflush tcoflush
  tcioflush_order = ground arith

-- What a caller of ftdi_poll_modem_status gets from the answer of the device.
abbrev pub status_of : ℤ → ℕ → ℕ → ℤ × Option ℕ
status_of r b0 b1 = if eq_ℤ r (pos 2) then (pos 0, some (b0 + 0x100 * b1)) else (minus 1, none)

module _ {W : Type 0} (host : Host W) (c : Context) (dev : ℕ) (w : W)
    (is_open : c.usb_dev ≡ some dev) (small : c.index < 256) where
  abbrev answer : ℤ × List ℕ × W
  answer = host.control_in dev (record (packet c 5 0 c.index) { timeout = c.usb_read_timeout }) 2 w

  -- ftdi_poll_modem_status reports the two bytes of the device, the first one low, exactly when the
  -- device sent both.
  pub poll_modem_status_lem :
      get_or answer.1 0 0 < 256
      → get_or answer.1 1 0 < 256
      → ((poll_modem_status host (system c w)).0
          ≡ status_of answer.0 (get_or answer.1 0 0) (get_or answer.1 1 0))
        × ((poll_modem_status host (system c w)).1.world ≡ answer.2)
  unfolding poll_modem_status
  poll_modem_status_lem h0 h1 = ground (
    arith,
    bit_and-ones 8 (get_or answer.1 0 0),
    bit_or-high_low 8 (get_or answer.1 1 0) (get_or answer.1 0 0),
  )
