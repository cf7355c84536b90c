-- ===== src/Device/Ready.antt =====
-- What ftdi_init establishes.
use libsgftdi.Base.{
  Bool-cases, inl, inr, ℕ, ℤ, pos, minus, ◌≡◌, Bool, true, false, none, some, refl, is_negative,
}
use libsgftdi.Context.{Context, zeroed}
use libsgftdi.Control.Wire.{system}
use libsgftdi.Usb.{Host, Sys}
use libsgftdi.Device.Interface.{set_interface}
use libsgftdi.Device.Chunksize.{read_data_set_chunksize}
use libsgftdi.Device.Life.{init}

-- A context that the other functions can work with: no device, the first channel, buffers, an
-- EEPROM structure, and nothing to deliver.
pub record IsReady (c : Context) : Type 0 where
  pub closed : c.usb_dev ≡ none
  pub connected : (usb : ℕ) × (c.usb_ctx ≡ some usb)
  pub first : (c.interface ≡ 0) × (c.index ≡ 1) × (c.in_ep ≡ 2) × (c.out_ep ≡ 0x81)
  pub nothing_kept : c.readbuffer_remaining ≡ 0
  pub buffer : (m : ℕ → ℕ) × (c.readbuffer ≡ some m)
  pub sizes : (c.readbuffer_chunksize ≡ 4096) × (c.writebuffer_chunksize ≡ 4096)
  pub structure : c.eeprom ≡ some zeroed

module _ {W : Type 0} (host : Host W) (size : ℕ) (c : Context) (w : W) where
  abbrev usb : ℤ × ℕ × W
  usb = host.init w

  abbrev structure : Bool × W
  structure = host.alloc size usb.2

  abbrev buffer : Bool × W
  buffer = host.alloc 4096 structure.1

  abbrev pub Ready : ℤ × Sys W → Type 0
  Ready (code, s) = (code ≡ pos 0) × ((c' : Context) × (s.ftdi ≡ some c') × IsReady c')

  -- What the call comes to, from whether libusb failed and the two allocations were granted.
  abbrev pub Starts : Bool → Bool → Bool → ℤ × Sys W → Type 0
  Starts true a b (code, s) = code ≡ minus 3
  Starts false false b (code, s) = code ≡ minus 2
  Starts false true false (code, s) = code ≡ minus 1
  Starts false true true r = Ready r

  -- ftdi_init returns 0, with a context that is ready, if libusb starts and both allocations are
  -- granted. Otherwise it returns the code of the first that failed.
  pub init-Starts : Starts (is_negative usb.0) structure.0 buffer.0 (init host size (system c w))
  unfolding init set_interface read_data_set_chunksize
  init-Starts = elim (Bool-cases (is_negative usb.0)) [
    | inl failed ↦ rw failed refl
    | inr started ↦ elim (Bool-cases structure.0) [
      | inr denied ↦ rw (started, denied) refl
      | inl granted ↦ elim (Bool-cases buffer.0) [
        | inr denied ↦ rw (started, granted, denied) refl
        | inl both ↦
            rw (started, granted, both)
              (
                refl,
                (
                  _,
                  refl,
                  record {
                    closed = refl;
                    connected = (_, refl);
                    first = (refl, refl, refl, refl);
                    nothing_kept = refl;
                    buffer = (_, refl);
                    sizes = (refl, refl);
                    structure = refl;
                  },
                ),
              )
      ]
    ]
  ]
