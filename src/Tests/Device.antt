-- ===== src/Tests/Device.antt =====
-- The life of a context on the bench.
use libsgftdi.Base.{ℕ, minus, ◌≡◌, some}
use libsgftdi.Control.Command.{Command, perform}
use libsgftdi.Control.Wire.{system}
use libsgftdi.Device.{init, set_interface, usb_close, deinit}
use libsgftdi.Device.Channel.{Bound, set_interface-Bound}
use libsgftdi.Device.Ready.{Ready, init-Starts}
use libsgftdi.Device.Closed.{Released, deinit-deinit, perform-usb_close}
use libsgftdi.Device.Extended.{init_ex, deinit_ex}
use libsgftdi.Device.Borrowed.{borrowed, init_ex-deinit_ex}
use libsgftdi.Tests.Bench.{bench, opened, closed}

init-Starts_example : Ready bench 400 closed 0 (init bench 400 (system closed 0))
init-Starts_example = init-Starts bench 400 closed 0

set_interface-Bound_example : Bound {W = ℕ} 2 closed 0 (set_interface 2 (system closed 0))
set_interface-Bound_example = set_interface-Bound closed 0 2

deinit-deinit_example :
    Released (deinit bench (system opened 0)).ftdi
    × (deinit bench (deinit bench (system opened 0)) ≡ deinit bench (system opened 0))
deinit-deinit_example = deinit-deinit bench (system opened 0)

perform-usb_close_example :
    let s = (usb_close bench (system opened 0)).1 in
    ((perform bench Command.reset s).0 ≡ minus 2)
    × ((perform bench Command.reset s).1.world ≡ s.world)
perform-usb_close_example = perform-usb_close bench Command.reset (system opened 0)

init_ex-deinit_ex_example :
    (init_ex bench 400 (some 9) (system closed 0) ≡ init (borrowed 9 bench) 400 (system closed 0))
    × (deinit_ex bench (system closed 0) ≡ deinit (borrowed 9 bench) (system closed 0))
init_ex-deinit_ex_example = init_ex-deinit_ex bench 400 9 (system closed 0)
