-- ===== src/Tests/Owner.antt =====
-- A configuration that names one of the chips of the bus.
use libsgftdi.Base.{ℕ, pos, true, false, ◌≡◌, refl, none, [], ◌∷◌}
use libsgftdi.Context.{DataBits, StopBits, Parity}
use libsgftdi.Stream.State.{thrown}
use libsgftdi.Stream.Owner.{UsbDev, Owner, context_clear, context_init}
use libsgftdi.Device.{set_interface, read_data_set_chunksize}
use libsgftdi.Device.Extended.{new_ex, init_ex, free_ex, deinit_ex}
use libsgftdi.Open.Find.{find_all, find_loop, list_free}
use libsgftdi.Tests.Bench.{bench}
use libsgftdi.Tests.Open.{bus}
use libsgftdi.Tests.Stream.{idle}

abbrev dev_of : ℕ → UsbDev
dev_of n = record { vendor = pos 0x403; product = pos 0x6001; device = n }

abbrev owner : ℕ → Owner ℕ
owner n = record {
  ctx = none;
  usb_ctx = none;
  create_libusb_context = true;
  libusb_context_created = false;
  manufacturer = [];
  description = [];
  serial = [];
  config = record {
    speed = pos 115200;
    usb_devices = dev_of n ∷ [];
    usb_device = dev_of 0;
    ftdi_port = 0;
    databits = DataBits.bits_8;
    stopbits = StopBits.stop_bit_1;
    parity = Parity.none;
    flow = 0;
  };
  world = 0;
}

-- Without a context of libusb, and not allowed to make one.
refused :
    (context_init bench bus idle 1 1 1 none (record (owner 0) { create_libusb_context = false })).0
    ≡ thrown "USB context is not provided"
unfolding context_init context_clear
refused = refl

not_found :
    (context_init bench bus idle 1 1 1 none (owner 5)).0 ≡ thrown "Unable to find usb device"
unfolding context_init context_clear new_ex init_ex free_ex deinit_ex set_interface
    read_data_set_chunksize find_all find_loop list_free
not_found = refl
