-- ===== src/Open/Describe.antt =====
-- ftdi_usb_open_string. sscanf and strtoul are those of C's library: `Reader` has what the function
-- uses of them. A C string is the list of its characters before the NUL.
use libsgftdi.Base.{
  ℕ, ℤ, minus, is_negative, List, [], ◌∷◌, Bool, true, ◌==◌, ◌||◌, not, u32, if◌then◌else◌, Option,
  none, some,
}
use libsgftdi.Usb.{
  Host, Function, Action, ◌>>=◌, ◌>>◌, body, pure, outside, context, call, error_if, error_return,
}
use libsgftdi.Open.Enumeration.{Enumeration, fail_if}
use libsgftdi.Open.Choose.{open_desc_index, at_address}

-- What strtoul finds: the value, what is behind the number, whether it read anything, and errno.
pub record Number : Type 0 where
  pub value : ℕ
  pub rest : List ℕ
  pub some_read : Bool
  pub has_errno : Bool

pub record Reader : Type 0 where
  -- strtoul(s, &endp, 0)
  pub strtoul : List ℕ → Number
  -- sscanf(s, "%u/%u", &a, &b), if it returns 2
  pub two_numbers : List ℕ → Option (ℕ × ℕ)

-- *endp, which is NUL at the end
abbrev pub next_char : List ℕ → ℕ
next_char [] = 0
next_char (x ∷ l) = x

-- endp + 1
abbrev pub behind : List ℕ → List ℕ
behind [] = []
behind (x ∷ l) = l

module _ {W : Type 0} (host : Host W) (enum : Enumeration W) (reader : Reader) where
  abbrev illegal_if : Bool → Action W (Unit {0})
  illegal_if test = error_if test (minus 11) "illegal description format"

  abbrev refused : List ℕ → Action W ℤ
  refused devs = fail_if enum true devs (minus 11) "illegal description format" >> pure (minus 11)

  -- Of the form d:bus/address.
  abbrev by_node : List ℕ → Action W ℤ
  by_node l = do
    c ← context (minus 12) "ftdi context invalid"
    (r, devs) ←
        outside λ w. (let (r, devs, w') = enum.get_device_list c.usb_ctx w in ((r, devs), w'))
    error_if (is_negative r) (minus 2) "libusb_get_device_list() failed"
    elim (reader.two_numbers l) [
      | none ↦ refused devs
      | some (bus_number, device_address) ↦
          at_address host enum devs (u32 bus_number) (u32 device_address) devs
    ]

  -- A number, which must be there and in range.
  abbrev number : List ℕ → Action W Number
  number l = let n = reader.strtoul l in illegal_if (not n.some_read || n.has_errno) >> pure n

  -- The optional index of an i-description.
  abbrev index_of : List ℕ → Action W ℕ
  index_of [] = pure 0
  index_of (x ∷ l) = do
    illegal_if (not (x == 58))
    n ← number l
    illegal_if (not (next_char n.rest == 0))
    pure (u32 n.value)

  abbrev by_index : ℕ → ℕ → List ℕ → Action W ℤ
  by_index vendor product l = do
    index ← index_of l
    call (open_desc_index host enum vendor product none none index)

  abbrev by_serial : ℕ → ℕ → List ℕ → Action W ℤ
  by_serial vendor product l = do
    illegal_if (not (next_char l == 58))
    call (open_desc_index host enum vendor product none (some (behind l)) 0)

  -- Of the form i:vendor:product, with :index or not, or s:vendor:product:serial.
  abbrev by_numbers : ℕ → List ℕ → Action W ℤ
  by_numbers kind l = do
    v ← number l
    illegal_if (not (next_char v.rest == 58))
    p ← number (behind v.rest)
    if kind == 105
        then by_index (u32 v.value) (u32 p.value) p.rest
        else by_serial (u32 v.value) (u32 p.value) p.rest

  abbrev by_kind : ℕ → List ℕ → Action W ℤ
  by_kind kind l =
      if kind == 100
      then by_node l
      else if kind == 105 || kind == 115
      then by_numbers kind l
      else error_return (minus 11) "illegal description format"

  abbrev parsed : List ℕ → Action W ℤ
  parsed [] = error_return (minus 11) "illegal description format"
  parsed (kind ∷ []) = error_return (minus 11) "illegal description format"
  parsed (kind ∷ colon ∷ l) = illegal_if (not (colon == 58)) >> by_kind kind l

  unfoldable pub open_string : List ℕ → Function W ℤ
  open_string description = body (context (minus 12) "ftdi context invalid" >> parsed description)
