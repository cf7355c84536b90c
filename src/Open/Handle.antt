-- ===== src/Open/Handle.antt =====
-- What the functions that read the strings of a device leave of its handle.
use libsgftdi.Base.{
  ℕ, ℤ, pos, negsuc, minus, is_negative, ◌≡◌, refl, Bool, true, false, if◌then◌else◌, Option, none,
  some,
}
use libsgftdi.Context.{Context}
use libsgftdi.Usb.{Host, Sys, Action, Exit, done, returned, ◌>>=◌, error_if, pure, body_out}
use libsgftdi.Open.Enumeration.{Enumeration, Descriptor}
use libsgftdi.Open.Strings.{
  Wanted, get_strings2, get_strings_ex, read_strings, read_strings_ex, handle_of, with_handle,
  Strings,
}
use libsgftdi.Open.Steps.{
  Leaves, device_of, Ok, with_handle-Ok, read_strings-Ok, read_strings_ex-Ok,
}

module _ {W : Type 0} where
  -- What `body_out` makes of a step that ends as it should.
  body_out-Leaves :
      (A : Type 0) (b : Option ℕ) (m : Action W A) (s : Sys W)
      → Ok b b (m s)
      → Leaves (body_out m s).0.0 b (device_of (body_out m s).1.ftdi)
  body_out-Leaves A b m s ok = after (m s).0 (m s).1 ok
    where
      after :
          (e : Exit A) (s' : Sys W)
          → Ok {A = A} b b (e, s')
          → let out = body_out (λ t. (e, s')) s' in Leaves out.0.0 b (device_of out.1.ftdi)
      after (done a) s' ok = ok
      after (returned r) s' ok = ok

module _ {W : Type 0} (host : Host W) (enum : Enumeration W)
    (read : ℕ → Wanted → Descriptor → Action W Strings) (wanted : Wanted)
    (read-Ok : (b h : Option ℕ) (at : ℕ) (desc : Descriptor) (s : Sys W)
      → device_of s.ftdi ≡ h
      → Ok b h (read at wanted desc s)) where
  -- What `handle_of` does with the answer of libusb_open.
  abbrev answered : Context → ℤ × ℕ × W → Exit (ℕ × Bool) × Sys W
  answered c (r, at, w) =
      (error_if (is_negative r) (minus 4) "libusb_open() failed" >>= λ t. pure (at, true)) (record {
        ftdi = some (if is_negative r then c else record c { usb_dev = some at });
        world = w;
      })

  answered-Ok :
      (d : ℕ) (c : Context) (answer : ℤ × ℕ × W) (s : Sys W)
      → c.usb_dev ≡ none
      → Ok none none (((λ t. answered c answer) >>= with_handle host enum read wanted d) s)
  answered-Ok d c (pos n, at, w) s there =
      with_handle-Ok host enum none read wanted (read-Ok none) d at true
        (record { ftdi = some (record c { usb_dev = some at }); world = w }) refl
  answered-Ok d c (negsuc n, at, w) s there = there

  handle_of-Ok :
      (u : Option ℕ) (d : ℕ) (c : Context) (w : W)
      → c.usb_dev ≡ u
      → Ok u u (
          (handle_of host enum u d >>= with_handle host enum read wanted d)
            (record { ftdi = some c; world = w }))
  handle_of-Ok (some at) d c w there =
      with_handle-Ok host enum (some at) read wanted (read-Ok (some at)) d at false
        (record { ftdi = some c; world = w }) there
  handle_of-Ok none d c w there =
      answered-Ok d c (enum.open_device d w) (record { ftdi = some c; world = w }) there

module _ {W : Type 0} (host : Host W) (enum : Enumeration W) (dev : Option ℕ)
    (wanted : Wanted) where
  get_strings2-Leaves :
      (dev : Option ℕ) (o : Option Context) (w : W)
      → let (out, s') = get_strings2 host enum dev wanted (record { ftdi = o; world = w }) in
        Leaves out.0 (device_of o) (device_of s'.ftdi)
  unfolding get_strings2
  get_strings2-Leaves dev none w = refl
  get_strings2-Leaves none (some c) w = refl
  get_strings2-Leaves (some d) (some c) w =
      body_out-Leaves Strings c.usb_dev
        (handle_of host enum c.usb_dev d
          >>= with_handle host enum (read_strings host enum) wanted d)
        (record { ftdi = some c; world = w })
        (handle_of-Ok host enum (read_strings host enum) wanted
          (λ b h at desc s at_h. read_strings-Ok host enum b h at wanted desc s at_h) c.usb_dev d c
          w refl)

  get_strings_ex-Leaves :
      (dev : Option ℕ) (o : Option Context) (w : W)
      → let (out, s') = get_strings_ex host enum dev wanted (record { ftdi = o; world = w }) in
        Leaves out.0 (device_of o) (device_of s'.ftdi)
  unfolding get_strings_ex
  get_strings_ex-Leaves dev none w = refl
  get_strings_ex-Leaves none (some c) w = refl
  get_strings_ex-Leaves (some d) (some c) w =
      body_out-Leaves Strings c.usb_dev
        (handle_of host enum c.usb_dev d
          >>= with_handle host enum (read_strings_ex host enum) wanted d)
        (record { ftdi = some c; world = w })
        (handle_of-Ok host enum (read_strings_ex host enum) wanted
          (λ b h at desc s at_h. read_strings_ex-Ok host enum b h at wanted desc s at_h) c.usb_dev d
          c w refl)

  -- ftdi_usb_get_strings2 and ftdi_usb_get_strings_ex close the device if and only if they have opened
  -- it, when they return 0: it is then as it was before. A string that cannot be read (-7, -8, -9)
  -- leaves no device, also where one was open before the call; a missing argument (-1) and a device
  -- that cannot be opened (-4) leave what there was; and after -11, for a descriptor that cannot be
  -- read, the device is open, whether it was before or not.
  pub get_strings-Leaves :
      (s : Sys W)
      → let (out, s') = get_strings2 host enum dev wanted s in
        let (out_ex, s_ex) = get_strings_ex host enum dev wanted s in
        Leaves out.0 (device_of s.ftdi) (device_of s'.ftdi)
        × Leaves out_ex.0 (device_of s.ftdi) (device_of s_ex.ftdi)
  get_strings-Leaves s =
      (get_strings2-Leaves dev s.ftdi s.world, get_strings_ex-Leaves dev s.ftdi s.world)
