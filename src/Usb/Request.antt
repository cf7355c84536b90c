-- ===== src/Usb/Request.antt =====
-- The vendor requests that the control functions of src/ftdi.c send with libusb_control_transfer.
use libsgftdi.Usb.Libusb.{Host}
use libsgftdi.Usb.Monad.{Action, outside}
use libsgftdi.Base.{ℕ, ℤ, List, u16}
use libsgftdi.Context.{Context}

module _ {W : Type 0} (host : Host W) where
  -- To the device, with no data. wValue and wIndex are uint16_t.
  abbrev pub vendor_out : Context → ℕ → ℕ → ℕ → ℕ → Action W ℤ
  vendor_out c dev request value index = outside (
      host.control_out dev (record {
        request = request;
        value = u16 value;
        index = u16 index;
        timeout = c.usb_write_timeout;
      }))

  -- From the device, into a buffer of `size` bytes: the return code and the buffer.
  abbrev pub vendor_in : Context → ℕ → ℕ → ℕ → ℕ → ℕ → Action W (ℤ × List ℕ)
  vendor_in c dev request value index size = outside (λ w.
      let (r, l, w') =
        host.control_in dev
          (record {
            request = request;
            value = u16 value;
            index = u16 index;
            timeout = c.usb_read_timeout;
          })
          size w in
      ((r, l), w'))
