-- ===== src/Open/Steps.antt =====
-- The steps of reading strings, and what they leave of the handle when they return early.
use libsgftdi.Base.{
  ℕ, ℤ, minus, eq_ℤ, is_negative, ◌||◌, ◌≡◌, refl, Bool, true, false, if◌then◌else◌, Option, none,
  some, List, String, subst, sym, ◌∙◌, arith, Bool-cases, inl, inr,
}
use libsgftdi.Context.{Context}
use libsgftdi.Usb.{Host, Sys, Action, Exit, done, returned, ◌>>=◌, error_return, error_if, pure}
use libsgftdi.Device.{usb_close_internal}
use libsgftdi.Open.Enumeration.{Enumeration, Descriptor, close}
use libsgftdi.Open.Strings.{
  Wanted, got, fetch, fetch_ex, read_strings, read_serial, read_description, read_strings_ex,
  close_if, with_handle, Strings,
}

abbrev pub device_of : Option Context → Option ℕ
device_of none = none
device_of (some c) = c.usb_dev

abbrev pub is_some : {A : Type 0} → Option A → Bool
is_some none = false
is_some (some a) = true

-- After -11 the device is open; after -7, -8 and -9 it is not; after all else it is as it was.
abbrev pub Leaves : ℤ → Option ℕ → Option ℕ → Type 0
Leaves r before after =
    if eq_ℤ r (minus 11)
    then is_some after ≡ true
    else if eq_ℤ r (minus 7) || (eq_ℤ r (minus 8) || eq_ℤ r (minus 9))
    then after ≡ none
    else after ≡ before

module _ {W : Type 0} where
  -- A step that goes on has the handle `h`; one that returns early leaves what its code says.
  abbrev pub Ok : {A : Type 0} → Option ℕ → Option ℕ → Exit A × Sys W → Type 0
  Ok b h (done a, s) = device_of s.ftdi ≡ h
  Ok b h (returned r, s) = Leaves r b (device_of s.ftdi)

  pub bind-Ok :
      {A B : Type 0} (b h h' : Option ℕ) (m : Action W A) (f : A → Action W B) (s : Sys W)
      → Ok b h (m s)
      → ((a : A) (s : Sys W) → device_of s.ftdi ≡ h → Ok b h' (f a s))
      → Ok b h' ((m >>= f) s)
  bind-Ok {A} {B} b h h' m f s ok next = after (m s).0 (m s).1 ok
    where
      after :
          (e : Exit A) (s' : Sys W)
          → Ok {A = A} b h (e, s')
          → Ok {A = B} b h' (elim e [ done a ↦ f a s' | returned r ↦ (returned r, s') ])
      after (done a) s' ok = next a s' ok
      after (returned r) s' ok = ok

  pub error_return-handle :
      (A : Type 0) (r : ℤ) (str : String) (s : Sys W)
      → device_of (error_return {A = A} r str s).1.ftdi ≡ device_of s.ftdi
  error_return-handle A r str s = by_context s.ftdi s.world
    where
      by_context :
          (o : Option Context) (w : W)
          → device_of (error_return {A = A} r str (record { ftdi = o; world = w })).1.ftdi
            ≡ device_of o
      by_context none w = refl
      by_context (some c) w = refl

  -- A test that fails with a code that fits the handle.
  pub error_if-Ok :
      (b h : Option ℕ) (test : Bool) (r : ℤ) (str : String) (s : Sys W)
      → Leaves r b h
      → device_of s.ftdi ≡ h
      → Ok b h (error_if test r str s)
  error_if-Ok b h true r str s lost at_h =
      subst (Leaves r b) (sym (error_return-handle (Unit {0}) r str s ∙ at_h)) lost
  error_if-Ok b h false r str s lost at_h = at_h

  usb_close_internal-usb_dev :
      (host : Host W) (c : Context) (w : W) → (usb_close_internal host c w).0.usb_dev ≡ none
  unfolding usb_close_internal
  usb_close_internal-usb_dev host c w = ground arith

  close-Ok : (host : Host W) (b : Option ℕ) (s : Sys W) → Ok b none (close host s)
  close-Ok host b s = by_context s.ftdi s.world
    where
      by_context :
          (o : Option Context) (w : W) → Ok b none (close host (record { ftdi = o; world = w }))
      by_context none w = refl
      by_context (some c) w = usb_close_internal-usb_dev host c w

module _ {W : Type 0} (host : Host W) (enum : Enumeration W) (b : Option ℕ) where
  got-Ok :
      (h : Option ℕ) (code r : ℤ) (string : List ℕ) (s : Sys W)
      → Leaves code b none
      → device_of s.ftdi ≡ h
      → Ok b h (got host enum code r string s)
  got-Ok h code r string s lost at_h = elim (Bool-cases (is_negative r)) [
    | inl bad ↦ rw bad (
        bind-Ok b none h (close host) (λ t. error_return code failure) s (close-Ok host b s)
          (λ t s' empty.
            subst (Leaves code b)
              (sym (error_return-handle (Option (List ℕ)) code failure s' ∙ empty)) lost))
    | inr good ↦ rw good at_h
  ]
    where
      failure : String
      failure = "libusb_get_string_descriptor_ascii() failed"

  fetch-Ok :
      (h : Option ℕ) (at index : ℕ) (code : ℤ) (wanted : Option ℕ) (s : Sys W)
      → Leaves code b none
      → device_of s.ftdi ≡ h
      → Ok b h (fetch host enum at index code wanted s)
  fetch-Ok h at index code none s lost at_h = at_h
  fetch-Ok h at index code (some n) s lost at_h =
      got-Ok h code (enum.get_string at index n s.world).0 (enum.get_string at index n s.world).1
        (record s { world = (enum.get_string at index n s.world).2 }) lost at_h

  module _ (h : Option ℕ) (at : ℕ) (wanted : Wanted) (desc : Descriptor) where
    read_serial-Ok :
        (m d : Option (List ℕ)) (s : Sys W)
        → device_of s.ftdi ≡ h
        → Ok b h (read_serial host enum at wanted desc m d s)
    read_serial-Ok m d s at_h =
        bind-Ok b h h (fetch host enum at desc.serial_number (minus 9) wanted.serial_len)
          (λ serial. pure (record { manufacturer = m; description = d; serial = serial })) s
          (fetch-Ok h at desc.serial_number (minus 9) wanted.serial_len s refl at_h)
          (λ serial s' at_h'. at_h')

    read_description-Ok :
        (m : Option (List ℕ)) (s : Sys W)
        → device_of s.ftdi ≡ h
        → Ok b h (read_description host enum at wanted desc m s)
    read_description-Ok m s at_h =
        bind-Ok b h h (fetch host enum at desc.product_string (minus 8) wanted.desc_len)
          (read_serial host enum at wanted desc m) s
          (fetch-Ok h at desc.product_string (minus 8) wanted.desc_len s refl at_h)
          (read_serial-Ok m)

    pub read_strings-Ok :
        (s : Sys W) → device_of s.ftdi ≡ h → Ok b h (read_strings host enum at wanted desc s)
    read_strings-Ok s at_h =
        bind-Ok b h h (fetch host enum at desc.manufacturer_string (minus 7) wanted.mnf_len)
          (read_description host enum at wanted desc) s
          (fetch-Ok h at desc.manufacturer_string (minus 7) wanted.mnf_len s refl at_h)
          read_description-Ok

    fetch_ex-Ok :
        (index : ℕ) (n : Option ℕ) (s : Sys W)
        → device_of s.ftdi ≡ h
        → Ok b h (fetch_ex host enum at index n s)
    fetch_ex-Ok index none s at_h = at_h
    fetch_ex-Ok index (some n) s at_h = at_h

    pub read_strings_ex-Ok :
        (s : Sys W) → device_of s.ftdi ≡ h → Ok b h (read_strings_ex host enum at wanted desc s)
    read_strings_ex-Ok s at_h =
        bind-Ok b h h (fetch_ex host enum at desc.manufacturer_string wanted.mnf_len)
          (λ m. fetch_ex host enum at desc.product_string wanted.desc_len >>= λ d.
            fetch_ex host enum at desc.serial_number wanted.serial_len >>= λ serial.
            pure (record { manufacturer = m; description = d; serial = serial }))
          s (fetch_ex-Ok desc.manufacturer_string wanted.mnf_len s at_h)
          (λ m s1 at1.
            bind-Ok b h h (fetch_ex host enum at desc.product_string wanted.desc_len)
              (λ d. fetch_ex host enum at desc.serial_number wanted.serial_len >>= λ serial.
                pure (record { manufacturer = m; description = d; serial = serial }))
              s1 (fetch_ex-Ok desc.product_string wanted.desc_len s1 at1)
              (λ d s2 at2.
                bind-Ok b h h (fetch_ex host enum at desc.serial_number wanted.serial_len)
                  (λ serial. pure (record { manufacturer = m; description = d; serial = serial }))
                  s2 (fetch_ex-Ok desc.serial_number wanted.serial_len s2 at2)
                  (λ serial s3 at3. at3)))

  close_if-Ok :
      (h : Option ℕ) (need_open : Bool) (s : Sys W)
      → device_of s.ftdi ≡ h
      → Ok b (if need_open then none else h) (close_if host enum need_open s)
  close_if-Ok h true s at_h = close-Ok host b s
  close_if-Ok h false s at_h = at_h

  module _ (read : ℕ → Wanted → Descriptor → Action W Strings) (wanted : Wanted)
      (read-Ok : (h : Option ℕ) (at : ℕ) (desc : Descriptor) (s : Sys W)
        → device_of s.ftdi ≡ h
        → Ok b h (read at wanted desc s)) where
    pub with_handle-Ok :
        (dev at : ℕ) (need_open : Bool) (s : Sys W)
        → device_of s.ftdi ≡ some at
        → Ok b
            (if need_open then none else some at)
            (with_handle host enum read wanted dev (at, need_open) s)
    with_handle-Ok dev at need_open s at_h =
        let s1 = record s { world = (enum.get_device_descriptor dev s.world).2 } in
        let desc = (enum.get_device_descriptor dev s.world).1 in
        let q : Option ℕ = if need_open then none else some at in
        bind-Ok b (some at) q
          (error_if (is_negative (enum.get_device_descriptor dev s.world).0) (minus 11)
            "libusb_get_device_descriptor() failed")
          (λ t. read at wanted desc >>= closing) s1
          (error_if-Ok b (some at) (is_negative (enum.get_device_descriptor dev s.world).0)
            (minus 11) "libusb_get_device_descriptor() failed" s1 refl at_h)
          (λ t s2 at2.
            bind-Ok b (some at) q (read at wanted desc) closing s2
              (read-Ok (some at) at desc s2 at2)
              (λ strings s3 at3.
                bind-Ok b q q (close_if host enum need_open) (λ t. pure strings) s3
                  (close_if-Ok (some at) need_open s3 at3) (λ t s4 at4. at4)))
      where
        closing : Strings → Action W Strings
        closing strings = close_if host enum need_open >>= λ t. pure strings
