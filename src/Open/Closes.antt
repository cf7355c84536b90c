-- ===== src/Open/Closes.antt =====
-- Steps that, when they return early with one of certain codes, leave no device open.
use libsgftdi.Base.{
  ℕ, ℤ, minus, eq_ℤ, Bool, true, false, ◌||◌, ◌≡◌, refl, arith, Option, none, some, String,
}
use libsgftdi.Base.{Option-cases, inl, inr}
use libsgftdi.Context.{Context}
use libsgftdi.Usb.{
  Host, Sys, Action, Exit, done, returned, ◌>>=◌, ◌>>◌, outside, error_if, error_return,
}
use libsgftdi.Device.{usb_close_internal}
use libsgftdi.Open.Enumeration.{close}

-- The codes for a configuration, an interface, a reset or a baud rate that is refused, and for a lack
-- of permissions.
abbrev pub is_closing : ℤ → Bool
is_closing r =
    eq_ℤ r (minus 3) || eq_ℤ r (minus 5) || eq_ℤ r (minus 6) || eq_ℤ r (minus 7) || eq_ℤ r (minus 8)

abbrev has_device : Option ℕ → Bool
has_device none = false
has_device (some dev) = true

abbrev has_open : Option Context → Bool
has_open none = false
has_open (some c) = has_device c.usb_dev

abbrev pub is_open : {W : Type 0} → Sys W → Bool
is_open s = has_open s.ftdi

module _ {W : Type 0} where
  -- An early return with one of the codes leaves no device open; an end without a return is a `Q`.
  abbrev pub Safe : {A : Type 0} → Type 0 → Exit A × Sys W → Type 0
  Safe Q (done a, s) = Q
  Safe Q (returned r, s) = is_closing r ≡ true → is_open s ≡ false

  abbrev pub Closes : {A : Type 0} → Type 0 → Action W A → Type 0
  Closes Q m = (s : Sys W) → Safe Q (m s)

  pub bind-Closes :
      {A B : Type 0} (Q : Type 0) (m : Action W A) (f : A → Action W B)
      → Closes (Unit {0}) m
      → ((a : A) → Closes Q (f a))
      → Closes Q (m >>= f)
  bind-Closes {A} {B} Q m f first next s = after (m s).0 (m s).1 (first s)
    where
      after :
          (e : Exit A) (s' : Sys W)
          → Safe {A = A} (Unit {0}) (e, s')
          → let o : Exit B × Sys W = elim e [ done a ↦ f a s' | returned r ↦ (returned r, s') ] in
            Safe {A = B} Q o
      after (done a) s' h = next a s'
      after (returned r) s' h = h

  pub error_if-Closes :
      (b : Bool) (r : ℤ) (str : String)
      → is_closing r ≡ false
      → Closes (Unit {0}) (error_if b r str)
  error_if-Closes true r str h s = λ e. absurd (ground arith)
  error_if-Closes false r str h s = tt

  pub error_return-Closes :
      (A Q : Type 0) (r : ℤ) (str : String)
      → is_closing r ≡ false
      → Closes {A = A} Q (error_return r str)
  error_return-Closes A Q r str h s = λ e. absurd (ground arith)

  outside-Closes : {A : Type 0} (f : W → A × W) → Closes (Unit {0}) (outside f)
  outside-Closes f s = tt

  -- Once the device is closed, any code is safe.
  pub closed-Safe :
      (A Q : Type 0) (r : ℤ) (str : String) (s : Sys W)
      → is_open s ≡ false
      → Safe {A = A} Q (error_return r str s)
  closed-Safe A Q r str s h = λ e. kept s.ftdi h
    where
      kept :
          (o : Option Context)
          → has_open o ≡ false
          → has_open (elim o [ none ↦ none | some c ↦ some (record c { error_str = some str }) ])
            ≡ false
      kept none h = refl
      kept (some c) h = h

  module _ (host : Host W) where
    close-is_open :
        (c : Context) (w : W) → has_device (usb_close_internal host c w).0.usb_dev ≡ false
    unfolding usb_close_internal
    close-is_open c w = elim (Option-cases c.usb_dev) [
      | inl shut ↦ rw shut refl
      | inr (dev, there) ↦ rw there refl
    ]

    pub close_then-Closes :
        (A Q : Type 0) (m : Action W A)
        → ((s : Sys W) → is_open s ≡ false → Safe {A = A} Q (m s))
        → Closes {A = A} Q (close host >> m)
    close_then-Closes A Q m next s = after s.ftdi s.world
      where
        after :
            (o : Option Context) (w : W)
            → Safe {A = A} Q ((close host >> m) (record { ftdi = o; world = w }))
        after none w = next _ refl
        after (some c) w = next _ (close-is_open c w)
