-- ===== src/Open/Spelled.antt =====
-- What ftdi_usb_open_string opens, by the address that its argument spells.
use libsgftdi.Base.{
  ℕ, ℤ, minus, is_negative, List, [], ◌∷◌, ◌++◌, ◌≡◌, ◌<◌, none, some, true, false, if◌then◌else◌,
}
use libsgftdi.Context.{Context}
use libsgftdi.Usb.{Host, Sys}
use libsgftdi.Open.Enumeration.{Enumeration}
use libsgftdi.Open.Choose.{open_desc_index, open_bus_addr}
use libsgftdi.Open.Describe.{Reader}

-- The forms of the documentation.
pub data Address : Type 0 where
  node : ℕ → ℕ → Address
  first : ℕ → ℕ → Address
  indexed : ℕ → ℕ → ℕ → Address
  with_serial : ℕ → ℕ → List ℕ → Address

-- The characters at which a number ends in a description.
abbrev pub Stops : List ℕ → Type 0
Stops [] = Unit {0}
Stops (x ∷ l) = x ≡ 58

-- A text that strtoul reads as the number, up to where it ends; the number fits an `unsigned int`.
pub record Spells (reader : Reader) (l : List ℕ) (n : ℕ) : Type 0 where
  pub fits : n < 4294967296
  pub reads :
      (rest : List ℕ)
      → Stops rest
      → reader.strtoul (l ++ rest)
        ≡ record { value = n; rest = rest; some_read = true; has_errno = false }

module _ (reader : Reader) (text : ℕ → List ℕ) where
  abbrev pub described : Address → List ℕ
  described (node bus dev) = 100 ∷ 58 ∷ (text bus ++ 47 ∷ text dev)
  described (first vendor product) = 105 ∷ 58 ∷ (text vendor ++ 58 ∷ (text product ++ []))
  described (indexed vendor product index) =
      105 ∷ 58 ∷ (text vendor ++ 58 ∷ (text product ++ 58 ∷ (text index ++ [])))
  described (with_serial vendor product serial) =
      115 ∷ 58 ∷ (text vendor ++ 58 ∷ (text product ++ 58 ∷ serial))

  -- The numbers are spelled as C's library reads them; those of a node are below 256.
  abbrev pub IsLegible : Address → Type 0
  IsLegible (node bus dev) =
      (bus < 256) × (dev < 256) × (reader.two_numbers (text bus ++ 47 ∷ text dev) ≡ some (bus, dev))
  IsLegible (first vendor product) =
      Spells reader (text vendor) vendor × Spells reader (text product) product
  IsLegible (indexed vendor product index) =
      Spells reader (text vendor) vendor
      × Spells reader (text product) product
      × Spells reader (text index) index
  IsLegible (with_serial vendor product serial) =
      Spells reader (text vendor) vendor × Spells reader (text product) product

module _ {W : Type 0} (host : Host W) (enum : Enumeration W) where
  -- The function that opens the device; for a node it returns -2 where the devices cannot be listed.
  abbrev pub opening : Address → Context → W → ℤ × Sys W
  opening (node bus dev) c w =
      let out = open_bus_addr host enum bus dev (record { ftdi = some c; world = w }) in
      if is_negative (enum.get_device_list c.usb_ctx w).0 then (minus 2, out.1) else out
  opening (first vendor product) c w =
      open_desc_index host enum vendor product none none 0 (record { ftdi = some c; world = w })
  opening (indexed vendor product index) c w =
      open_desc_index host enum vendor product none none index (record { ftdi = some c; world = w })
  opening (with_serial vendor product serial) c w =
      open_desc_index host enum vendor product none (some serial) 0
        (record { ftdi = some c; world = w })
