-- ===== src/Tests/Control.antt =====
-- Control requests on the bench.
use mathlib.Core.Option
use libsgftdi.Base.{pos, minus, ◌≡◌, refl, arith, some}
use libsgftdi.Context.{Parity, StopBits, DataBits, Break}
use libsgftdi.Control.{tcioflush, usb_purge_buffers, poll_modem_status, forget_read}
use libsgftdi.Control.Command.{Command, perform, wire}
use libsgftdi.Control.Wire.{system, quiet, Outcome, perform-wire}
use libsgftdi.Control.Guard.{Untouched, perform-unavailable}
use libsgftdi.Control.Exchange.{usb_purge_buffers-tcioflush, tcioflush_order, poll_modem_status_lem}
use libsgftdi.Control.Exchange.{status_of, settled}
use libsgftdi.Tests.Bench.{bench, opened, closed}

abbrev line_8n2 : Command
line_8n2 = Command.line DataBits.bits_8 StopBits.stop_bit_2 Parity.none Break.break_off

perform-wire_example :
    Outcome line_8n2 opened
      (bench.control_out 5 (wire line_8n2 opened) 0)
      (perform bench line_8n2 (system opened 0))
perform-wire_example = perform-wire bench opened 5 0 refl (omega arith) line_8n2 tt

perform-unavailable_example :
    ((perform bench (Command.latency 0) (system closed 0)).0 ≡ minus 1)
    × Untouched (system closed 0) (perform bench (Command.latency 0) (system closed 0)).1
perform-unavailable_example = perform-unavailable bench (Command.latency 0) (system closed 0) refl

usb_purge_buffers-tcioflush_example :
    ((usb_purge_buffers bench (system opened 0)).0 ≡ (tcioflush bench (system opened 0)).0)
    × ((usb_purge_buffers bench (system opened 0)).1.world
        ≡ (tcioflush bench (system opened 0)).1.world)
    × (Option.map settled (usb_purge_buffers bench (system opened 0)).1.ftdi
        ≡ Option.map settled (tcioflush bench (system opened 0)).1.ftdi)
usb_purge_buffers-tcioflush_example = usb_purge_buffers-tcioflush bench (system opened 0)

tcioflush_order_example :
    ((tcioflush bench (system opened 0)).0 ≡ pos 0)
    × ((tcioflush bench (system opened 0)).1.world ≡ 2)
    × (Option.map quiet (tcioflush bench (system opened 0)).1.ftdi
        ≡ some (quiet (forget_read opened)))
tcioflush_order_example = tcioflush_order bench opened 5 0 refl (omega arith)

poll_modem_status_lem_example :
    ((poll_modem_status bench (system opened 0)).0 ≡ status_of (pos 2) 1 96)
    × ((poll_modem_status bench (system opened 0)).1.world ≡ 1)
poll_modem_status_lem_example =
    poll_modem_status_lem bench opened 5 0 refl (omega arith) (omega arith) (omega arith)
