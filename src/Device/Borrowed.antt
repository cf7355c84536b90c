-- ===== src/Device/Borrowed.antt =====
-- The extended functions are the ordinary ones on a libusb that is already there.
use libsgftdi.Base.{ℕ, pos, ◌≡◌, refl, Bool-cases, inl, inr, Option, none, some, arith}
use libsgftdi.Context.{Context}
use libsgftdi.Usb.{Host, Sys}
use libsgftdi.Device.Interface.{set_interface}
use libsgftdi.Device.Chunksize.{read_data_set_chunksize}
use libsgftdi.Device.Life.{init, deinit, usb_close_internal}
use libsgftdi.Device.Extended.{init_ex, deinit_ex}

-- libusb_init hands out the context that is there, and libusb_exit leaves it alone.
abbrev pub borrowed : {W : Type 0} → ℕ → Host W → Host W
borrowed usb_ctx host = record host { init = λ w. (pos 0, usb_ctx, w); exit = λ usb w. w }

module _ {W : Type 0} (host : Host W) (size usb_ctx : ℕ) where
  init_ex-init :
      (o : Option Context) (w : W)
      → init_ex host size (some usb_ctx) (record { ftdi = o; world = w })
        ≡ init (borrowed usb_ctx host) size (record { ftdi = o; world = w })
  unfolding init_ex init set_interface read_data_set_chunksize
  init_ex-init none w = elim (Bool-cases (host.alloc size w).0) [
    | inl granted ↦ rw granted refl
    | inr refused ↦ rw refused refl
  ]
  init_ex-init (some c) w = elim (Bool-cases (host.alloc size w).0) [
    | inl granted ↦ rw granted refl
    | inr refused ↦ rw refused refl
  ]

  deinit_ex-deinit :
      (o : Option Context) (w : W)
      → deinit_ex host (record { ftdi = o; world = w })
        ≡ deinit (borrowed usb_ctx host) (record { ftdi = o; world = w })
  unfolding deinit_ex deinit usb_close_internal
  deinit_ex-deinit none w = refl
  deinit_ex-deinit (some c) w = ground arith

  -- With the context of libusb that the caller gives, ftdi_init_ex does what ftdi_init does on a
  -- libusb that starts with that context, and ftdi_deinit_ex does what ftdi_deinit does on one that
  -- keeps it running, so that it never ends the caller's context: the code, the structure, the memory
  -- asked for and the device closed are the same.
  pub init_ex-deinit_ex :
      (s : Sys W)
      → (init_ex host size (some usb_ctx) s ≡ init (borrowed usb_ctx host) size s)
        × (deinit_ex host s ≡ deinit (borrowed usb_ctx host) s)
  init_ex-deinit_ex s = (init_ex-init s.ftdi s.world, deinit_ex-deinit s.ftdi s.world)
