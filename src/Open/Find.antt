-- ===== src/Open/Find.antt =====
-- ftdi_usb_find_all and ftdi_list_free. The list of struct ftdi_device_list is the list of its devices,
-- and the context is not NULL, which the code does not test.
use libsgftdi.Base.{ℕ, ℤ, pos, minus, is_negative, List, [], ◌∷◌, length, Bool, ◌==◌, ◌&&◌, ◌||◌}
use libsgftdi.Base.{Option, none, some, String, if◌then◌else◌}
use libsgftdi.Context.{Context}
use libsgftdi.Usb.{Host}
use libsgftdi.Open.Enumeration.{Enumeration, Descriptor}

-- vendor and product as wanted, or the chips of FTDI if neither is given
abbrev pub is_wanted : ℕ → ℕ → Descriptor → Bool
is_wanted vendor product desc =
    if vendor == 0 && product == 0
    then desc.vendor == 0x403
      && (desc.product == 0x6001
          || desc.product == 0x6010
          || desc.product == 0x6011
          || desc.product == 0x6014
          || desc.product == 0x6015)
    else desc.vendor == vendor && desc.product == product

-- The code, the list, the context and the outside world.
pub record Found (W : Type 0) : Type 0 where
  pub code : ℤ
  pub devices : List ℕ
  pub context : Context
  pub world : W

module _ {W : Type 0} (host : Host W) (enum : Enumeration W) where
  -- The loop over the devices: the code and the message of the failure, if there is one, and the list.
  -- `sizeof` is that of struct ftdi_device_list.
  unfoldable pub find_loop : ℕ → ℕ → ℕ → List ℕ → W → Option (ℤ × String) × List ℕ × W
  find_loop sizeof vendor product [] w = (none, [], w)
  find_loop sizeof vendor product (dev ∷ devs) w =
      let (r, desc, w1) = enum.get_device_descriptor dev w in
      let (granted, w2) = host.alloc sizeof w1 in
      let passed = find_loop sizeof vendor product devs w1 in
      let (e, found, w3) = find_loop sizeof vendor product devs (enum.ref_device dev w2) in
      if is_negative r
      then (some (minus 6, "libusb_get_device_descriptor() failed"), [], w1)
      else if is_wanted vendor product desc
      then if granted then (e, dev ∷ found, w3) else (some (minus 3, "out of memory"), [], w2)
      else passed

  unfoldable pub find_all : ℕ → ℕ → ℕ → Context → W → Found W
  find_all sizeof vendor product c w =
      let (r, devs, w1) = enum.get_device_list c.usb_ctx w in
      let (e, found, w2) = find_loop sizeof vendor product devs w1 in
      let w3 = enum.free_device_list devs w2 in
      let failed = record c { error_str = some "libusb_get_device_list() failed" } in
      if is_negative r
      then record { code = minus 5; devices = []; context = failed; world = w1 }
      else elim e [
        | none ↦ record { code = pos (length found); devices = found; context = c; world = w3 }
        | some (code, str) ↦ record {
          code = code;
          devices = found;
          context = record c { error_str = some str };
          world = w3;
        }
      ]

  unfoldable pub list_free : List ℕ → W → W
  list_free [] w = w
  list_free (dev ∷ devs) w = list_free devs (enum.unref_device dev w)
