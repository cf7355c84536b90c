-- ===== src/Open/Choose.antt =====
-- ftdi_usb_open, ftdi_usb_open_desc, ftdi_usb_open_desc_index and ftdi_usb_open_bus_addr.
use libsgftdi.Base.{
  ℕ, ℤ, zero, suc, ◌-◌, minus, is_negative, List, [], ◌∷◌, Bool, true, false, ◌==◌, ◌&&◌, String,
}
use libsgftdi.Base.{u8, Option, none, some, if◌then◌else◌}
use libsgftdi.Usb.{
  Host, Function, Action, ◌>>=◌, ◌>>◌, body, pure, outside, context, call, error_if,
}
use libsgftdi.Open.Enumeration.{Enumeration, Descriptor, fail_if, open_usb, descriptor_of, close}
use libsgftdi.Open.Dev.{open_dev}

-- strncmp(a, b, n) == 0
abbrev pub is_same : List ℕ → List ℕ → ℕ → Bool
is_same a b zero = true
is_same [] [] (suc n) = true
is_same (x ∷ a) [] (suc n) = false
is_same [] (y ∷ b) (suc n) = false
is_same (x ∷ a) (y ∷ b) (suc n) = x == y && is_same a b n

module _ {W : Type 0} (host : Host W) (enum : Enumeration W) where
  -- The string at `index`, compared with `wanted` if it is given; the device is closed if it differs.
  abbrev string_matches : List ℕ → ℕ → ℕ → Option (List ℕ) → ℤ → String → Action W Bool
  string_matches devs handle index none code str = pure true
  string_matches devs handle index (some wanted) code str = do
    (r, string) ←
        outside λ w. (let (r, string, w') = enum.get_string handle index 256 w in ((r, string), w'))
    if is_negative r then close host else pure tt
    fail_if enum (is_negative r) devs code str
    if is_same string wanted 256 then pure true else (close host >> pure false)

  -- Whether a device with the right numbers has the right strings. It is closed again.
  abbrev candidate : List ℕ → Option (List ℕ) → Option (List ℕ) → ℕ → Descriptor → Action W Bool
  candidate devs description serial dev desc = do
    (r, handle) ← open_usb enum dev
    fail_if enum (is_negative r) devs (minus 4) "usb_open() failed"
    good ←
        string_matches devs handle desc.product_string description (minus 8)
          "unable to fetch product description"
    if good then rest handle else pure false
    where
      rest : ℕ → Action W Bool
      rest handle = do
        good ←
            string_matches devs handle desc.serial_number serial (minus 9)
              "unable to fetch serial number"
        if good then (close host >> pure true) else pure false

  -- Opens the device and frees the list.
  abbrev open_and_free : List ℕ → ℕ → Action W ℤ
  open_and_free devs dev = do
    res ← call (open_dev host enum dev)
    outside λ w. (tt, enum.free_device_list devs w)
    pure res

  abbrev not_found : List ℕ → Action W ℤ
  not_found devs = fail_if enum true devs (minus 3) "device not found" >> pure (minus 3)

  -- Whether the device is one of those that are counted.
  abbrev considered :
      List ℕ → ℕ → ℕ → Option (List ℕ) → Option (List ℕ) → ℕ → Descriptor → Action W Bool
  considered all vendor product description serial dev desc =
      if desc.vendor == vendor && desc.product == product
      then candidate all description serial dev desc
      else pure false

  abbrev examined : List ℕ → ℕ → ℕ → Option (List ℕ) → Option (List ℕ) → ℕ → Action W Bool
  examined all vendor product description serial dev = do
    (r, desc) ← descriptor_of enum dev
    fail_if enum (is_negative r) all (minus 13) "libusb_get_device_descriptor() failed"
    considered all vendor product description serial dev desc

  -- The loop over the rest of the devices, `index` of which are to be passed over.
  unfoldable pub choose :
      List ℕ → ℕ → ℕ → Option (List ℕ) → Option (List ℕ) → ℕ → List ℕ → Action W ℤ
  choose all vendor product description serial index [] = not_found all
  choose all vendor product description serial index (dev ∷ devs) =
      examined all vendor product description serial dev >>= λ good.
      (if good
        then if index == 0
          then open_and_free all dev
          else choose all vendor product description serial (index - 1) devs
        else choose all vendor product description serial index devs)

  unfoldable pub open_desc_index : ℕ → ℕ → Option (List ℕ) → Option (List ℕ) → ℕ → Function W ℤ
  open_desc_index vendor product description serial index = body do
    c ← context (minus 11) "ftdi context invalid"
    (r, devs) ←
        outside λ w. (let (r, devs, w') = enum.get_device_list c.usb_ctx w in ((r, devs), w'))
    error_if (is_negative r) (minus 12) "libusb_get_device_list() failed"
    choose devs vendor product description serial index devs

  unfoldable pub open_desc : ℕ → ℕ → Option (List ℕ) → Option (List ℕ) → Function W ℤ
  open_desc vendor product description serial = open_desc_index vendor product description serial 0

  unfoldable pub usb_open : ℕ → ℕ → Function W ℤ
  usb_open vendor product = open_desc vendor product none none

  abbrev pub at_address : List ℕ → ℕ → ℕ → List ℕ → Action W ℤ
  at_address all bus addr [] = not_found all
  at_address all bus addr (dev ∷ devs) =
      if enum.bus_number dev == bus && enum.device_address dev == addr
      then open_and_free all dev
      else at_address all bus addr devs

  -- The two arguments are of type uint8_t.
  unfoldable pub open_bus_addr : ℕ → ℕ → Function W ℤ
  open_bus_addr bus addr = body do
    c ← context (minus 11) "ftdi context invalid"
    (r, devs) ←
        outside λ w. (let (r, devs, w') = enum.get_device_list c.usb_ctx w in ((r, devs), w'))
    error_if (is_negative r) (minus 12) "libusb_get_device_list() failed"
    at_address devs (u8 bus) (u8 addr) devs
