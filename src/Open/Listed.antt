-- ===== src/Open/Listed.antt =====
-- What ftdi_usb_find_all lists.
use libsgftdi.Base.{
  arith, zero, suc, ◌==◌, ◌||◌, ◌&&◌, ◌∙◌, ℕ, pos, is_negative, List, [], ◌∷◌, length, Bool, true,
  false, ◌≡◌, refl, ap,
}
use libsgftdi.Base.{Bool-cases, inl, inr, none, if◌then◌else◌}
use libsgftdi.Context.{Context}
use libsgftdi.Usb.{Host}
use libsgftdi.Open.Enumeration.{Enumeration, Descriptor}
use libsgftdi.Open.Find.{find_loop, find_all, is_wanted}

-- Those of the devices that pass the test, in order.
unfoldable pub select : (ℕ → Bool) → List ℕ → List ℕ
select test [] = []
select test (x ∷ l) = let rest = select test l in if test x then x ∷ rest else rest

select-same : (f g : ℕ → Bool) → ((x : ℕ) → f x ≡ g x) → (l : List ℕ) → select f l ≡ select g l
unfolding select
select-same f g same [] = refl
select-same f g same (x ∷ l) = rw (same x, select-same f g same l)

-- The product ids of the chips of FTDI, whose vendor id is 0x403.
abbrev pub ftdi_products : List ℕ
ftdi_products = 0x6001 ∷ 0x6010 ∷ 0x6011 ∷ 0x6014 ∷ 0x6015 ∷ []

abbrev pub contains : ℕ → List ℕ → Bool
contains x [] = false
contains x (y ∷ l) = let rest = contains x l in if x == y then true else rest

-- What a caller asks for: the two ids, or any chip of FTDI.
abbrev pub is_asked : ℕ → ℕ → Descriptor → Bool
is_asked zero zero desc = desc.vendor == 0x403 && contains desc.product ftdi_products
is_asked vendor product desc = desc.vendor == vendor && desc.product == product

is_wanted-is_asked :
    (vendor product : ℕ) (desc : Descriptor)
    → is_wanted vendor product desc ≡ is_asked vendor product desc
is_wanted-is_asked zero zero desc = ap (λ k. desc.vendor == 0x403 && k) (by_product desc.product)
  where
    or-if : (a b : Bool) → (a || b) ≡ (if a then true else b)
    or-if true b = refl
    or-if false b = refl

    by_product :
        (p : ℕ)
        → (p == 0x6001 || p == 0x6010 || p == 0x6011 || p == 0x6014 || p == 0x6015)
          ≡ contains p ftdi_products
    by_product p = ground arith
is_wanted-is_asked zero (suc product) desc = ground arith
is_wanted-is_asked (suc vendor) product desc = ground arith

-- The descriptors can be read, are those of `info` whatever has happened, and malloc succeeds.
pub record IsReadable {W : Type 0} (host : Host W) (enum : Enumeration W) (info : ℕ → Descriptor)
    : Type 0 where
  pub read :
      (dev : ℕ) (w : W)
      → (is_negative (enum.get_device_descriptor dev w).0 ≡ false)
        × ((enum.get_device_descriptor dev w).1 ≡ info dev)
  pub granted : (size : ℕ) (w : W) → (host.alloc size w).0 ≡ true

module _ {W : Type 0} (host : Host W) (enum : Enumeration W) (info : ℕ → Descriptor)
    (readable : IsReadable host enum info) (sizeof vendor product : ℕ) where
  find_loop-select :
      (devs : List ℕ) (w : W)
      → ((find_loop host enum sizeof vendor product devs w).0 ≡ none)
        × ((find_loop host enum sizeof vendor product devs w).1
            ≡ select (λ dev. is_wanted vendor product (info dev)) devs)
  unfolding find_loop select
  find_loop-select [] w = (refl, refl)
  find_loop-select (dev ∷ devs) w =
      let (ok, desc) = readable.read dev w in
      let w1 = (enum.get_device_descriptor dev w).2 in
      let got = readable.granted sizeof w1 in
      let (more, rest) = find_loop-select devs (enum.ref_device dev (host.alloc sizeof w1).1) in
      elim (Bool-cases (is_wanted vendor product (info dev))) [
        | inl fits ↦ rw (ok, desc, fits, got) (more, ap (λ l. dev ∷ l) rest)
        | inr other ↦ rw (ok, desc, other) (find_loop-select devs w1)
      ]

  -- If the devices can be listed, their descriptors read and memory be had, ftdi_usb_find_all lists
  -- those devices, in the order of libusb, whose vendor and product are the given ones, or are those
  -- of one of the five chips of FTDI if both are 0, and returns their number; the context stays as it is.
  pub find_all-select :
      (c : Context) (w : W)
      → is_negative (enum.get_device_list c.usb_ctx w).0 ≡ false
      → let found = find_all host enum sizeof vendor product c w in
        let wanted =
          select (λ dev. is_asked vendor product (info dev)) (enum.get_device_list c.usb_ctx w).1 in
        (found.devices ≡ wanted) × (found.code ≡ pos (length wanted)) × (found.context ≡ c)
  unfolding find_all
  find_all-select c w listed =
      let (fine, all) =
        find_loop-select (enum.get_device_list c.usb_ctx w).1
          (enum.get_device_list c.usb_ctx w).2 in
      let asked = all ∙ same_tests in
      rw (listed, fine) (asked, ap (λ l. pos (length l)) asked, refl)
    where
      same_tests :
          select (λ dev. is_wanted vendor product (info dev)) (enum.get_device_list c.usb_ctx w).1
          ≡ select (λ dev. is_asked vendor product (info dev)) (enum.get_device_list c.usb_ctx w).1
      same_tests =
          select-same (λ dev. is_wanted vendor product (info dev))
            (λ dev. is_asked vendor product (info dev))
            (λ dev. is_wanted-is_asked vendor product (info dev))
            (enum.get_device_list c.usb_ctx w).1
