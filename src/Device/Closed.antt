-- ===== src/Device/Closed.antt =====
-- Closing: after it no device is used, and closing again does nothing.
use libsgftdi.Base.{◌≡◌, Option, none, some, arith}
use libsgftdi.Context.{Context}
use libsgftdi.Control.Command.{Command, perform}
use libsgftdi.Control.Guard.{unavailable_code, IsUnavailable, perform-unavailable}
use libsgftdi.Usb.{Host, Sys}
use libsgftdi.Device.Life.{usb_close, usb_close_internal, deinit}

abbrev pub Released : Option Context → Type 0
Released none = Unit {0}
Released (some c) =
    (c.usb_dev ≡ none) × (c.usb_ctx ≡ none) × (c.eeprom ≡ none) × (c.readbuffer ≡ none)

module _ {W : Type 0} (host : Host W) where
  -- ftdi_deinit leaves no device, no libusb context and no memory, and done twice it does no more
  -- than done once: nothing is closed or freed again.
  pub deinit-deinit :
      (s : Sys W) → Released (deinit host s).ftdi × (deinit host (deinit host s) ≡ deinit host s)
  unfolding deinit usb_close_internal
  deinit-deinit s = ground arith

  usb_close-IsUnavailable :
      (o : Option Context) (w : W)
      → IsUnavailable (usb_close host (record { ftdi = o; world = w })).1.ftdi
  unfolding usb_close usb_close_internal
  usb_close-IsUnavailable o w = ground arith

  -- After ftdi_usb_close every control function finds no device: it returns its code for that, and
  -- sends nothing.
  pub perform-usb_close :
      (cmd : Command) (s : Sys W)
      → let closed = (usb_close host s).1 in
        ((perform host cmd closed).0 ≡ unavailable_code cmd)
        × ((perform host cmd closed).1.world ≡ closed.world)
  perform-usb_close cmd s =
      let (code, same) =
        perform-unavailable host cmd (usb_close host s).1
          (usb_close-IsUnavailable s.ftdi s.world) in
      (code, same.0)
