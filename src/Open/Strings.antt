-- ===== src/Open/Strings.antt =====
-- ftdi_usb_get_strings, ftdi_usb_get_strings2 and, of src/ftdi_ex.h, ftdi_usb_get_strings_ex. A string
-- is wanted if the size of a buffer for it is given. What is in the buffers after an error is left out.
use libsgftdi.Base.{
  ℕ, ℤ, minus, is_negative, List, [], Bool, true, false, Option, none, some, if◌then◌else◌,
}
use libsgftdi.Context.{Context}
use libsgftdi.Usb.{
  Host, Function, Action, ◌>>=◌, ◌>>◌, body_out, return, pure, outside, call, error_if,
  error_return,
}
use libsgftdi.Open.Enumeration.{Enumeration, Descriptor, open_usb, descriptor_of, close}

pub record Strings : Type 0 where
  pub manufacturer : Option (List ℕ)
  pub description : Option (List ℕ)
  pub serial : Option (List ℕ)

-- The sizes of the buffers that are given.
pub record Wanted : Type 0 where
  pub mnf_len : Option ℕ
  pub desc_len : Option ℕ
  pub serial_len : Option ℕ

module _ {W : Type 0} (host : Host W) (enum : Enumeration W) where
  -- if ((ftdi==NULL) || (dev==NULL)) return -1;
  abbrev pub given : Option ℕ → Action W (Context × ℕ)
  given dev s = elim s.ftdi [
    | none ↦ return (minus 1) s
    | some c ↦ elim dev [ none ↦ return (minus 1) s | some d ↦ pure (c, d) s ]
  ]

  -- The handle, and whether it had to be opened.
  abbrev pub handle_of : Option ℕ → ℕ → Action W (ℕ × Bool)
  handle_of (some handle) dev = pure (handle, false)
  handle_of none dev = do
    (r, handle) ← open_usb enum dev
    error_if (is_negative r) (minus 4) "libusb_open() failed"
    pure (handle, true)

  abbrev pub string_at : ℕ → ℕ → ℕ → Action W (ℤ × List ℕ)
  string_at handle index n =
      outside λ w. (let (r, string, w') = enum.get_string handle index n w in ((r, string), w'))

  abbrev pub got : ℤ → ℤ → List ℕ → Action W (Option (List ℕ))
  got code r string =
      if is_negative r
      then close host >> error_return code "libusb_get_string_descriptor_ascii() failed"
      else pure (some string)

  -- A string that must be there, if it is wanted.
  abbrev pub fetch : ℕ → ℕ → ℤ → Option ℕ → Action W (Option (List ℕ))
  fetch handle index code none = pure none
  fetch handle index code (some n) = do (r, string) ← string_at handle index n; got code r string

  -- A string that is empty if it cannot be read.
  abbrev pub fetch_ex : ℕ → ℕ → Option ℕ → Action W (Option (List ℕ))
  fetch_ex handle index none = pure none
  fetch_ex handle index (some n) = do
    (r, string) ← string_at handle index n
    pure (some (if is_negative r then [] else string))

  -- if (need_open) ftdi_usb_close_internal (ftdi);
  abbrev pub close_if : Bool → Action W (Unit {0})
  close_if need_open = if need_open then close host else pure tt

  abbrev pub read_serial :
      ℕ → Wanted → Descriptor → Option (List ℕ) → Option (List ℕ) → Action W Strings
  read_serial handle wanted desc manufacturer description = do
    serial ← fetch handle desc.serial_number (minus 9) wanted.serial_len
    pure (record { manufacturer = manufacturer; description = description; serial = serial })

  abbrev pub read_description : ℕ → Wanted → Descriptor → Option (List ℕ) → Action W Strings
  read_description handle wanted desc manufacturer = do
    description ← fetch handle desc.product_string (minus 8) wanted.desc_len
    read_serial handle wanted desc manufacturer description

  abbrev pub read_strings : ℕ → Wanted → Descriptor → Action W Strings
  read_strings handle wanted desc = do
    manufacturer ← fetch handle desc.manufacturer_string (minus 7) wanted.mnf_len
    read_description handle wanted desc manufacturer

  -- The rest of the function once the device is open.
  abbrev pub with_handle :
      (ℕ → Wanted → Descriptor → Action W Strings) → Wanted → ℕ → ℕ × Bool → Action W Strings
  with_handle read wanted dev (handle, need_open) = do
    (r, desc) ← descriptor_of enum dev
    error_if (is_negative r) (minus 11) "libusb_get_device_descriptor() failed"
    strings ← read handle wanted desc
    close_if need_open
    pure strings

  unfoldable pub get_strings2 : Option ℕ → Wanted → Function W (ℤ × Option Strings)
  get_strings2 dev wanted = body_out do
    (c, d) ← given dev
    opened ← handle_of c.usb_dev d
    with_handle read_strings wanted d opened

  -- Only a success leaves the device to be closed.
  abbrev pub closed_after : ℤ × Option Strings → Action W Strings
  closed_after (ret, none) = return ret
  closed_after (ret, some strings) = close host >> pure strings

  unfoldable pub get_strings : Option ℕ → Wanted → Function W (ℤ × Option Strings)
  get_strings dev wanted = body_out do
    (c, d) ← given dev
    handle_of c.usb_dev d
    out ← call (get_strings2 dev wanted)
    closed_after out

  abbrev pub read_strings_ex : ℕ → Wanted → Descriptor → Action W Strings
  read_strings_ex handle wanted desc = do
    manufacturer ← fetch_ex handle desc.manufacturer_string wanted.mnf_len
    description ← fetch_ex handle desc.product_string wanted.desc_len
    serial ← fetch_ex handle desc.serial_number wanted.serial_len
    pure (record { manufacturer = manufacturer; description = description; serial = serial })

  unfoldable pub get_strings_ex : Option ℕ → Wanted → Function W (ℤ × Option Strings)
  get_strings_ex dev wanted = body_out do
    (c, d) ← given dev
    opened ← handle_of c.usb_dev d
    with_handle read_strings_ex wanted d opened
