-- ===== src/Open/Safe.antt =====
-- ftdi_usb_open_dev does not leave a device open that it gives up, as far as it closes it.
use libsgftdi.Base.{
  ℕ, ℤ, pos, minus, is_negative, Bool, true, false, ◌==◌, ◌≡◌, refl, Option, none, some, String,
  ltb, ◌&&◌, not,
}
use libsgftdi.Base.{Bool-cases, is_nonzero, inl, inr, if◌then◌else◌}
use libsgftdi.Context.{Context, DetachMode}
use libsgftdi.Usb.{
  Host, Sys, Action, Function, Exit, done, returned, result, ◌>>◌, pure, error_if, error_return,
}
use libsgftdi.Control.{usb_reset}
use libsgftdi.Baud.{set_baudrate}
use libsgftdi.Open.Enumeration.{Enumeration, Descriptor, close, descriptor_of, config_of}
use libsgftdi.Open.Dev.{
  open_dev, open_steps, examine, prepare, set_up, refuse, must, or_close, configure, recognise,
  detach,
}
use libsgftdi.Open.Closes.{
  is_closing, is_open, Safe, Closes, bind-Closes, error_if-Closes, error_return-Closes,
}
use libsgftdi.Open.Closes.{closed-Safe, close_then-Closes}

module _ {W : Type 0} where
  refuse-Safe :
      (A Q : Type 0) (errno : ℕ) (r : ℤ) (str : String) (s : Sys W)
      → is_open s ≡ false
      → Safe {A = A} Q (refuse errno r str s)
  refuse-Safe A Q errno r str s h = elim (Bool-cases (errno == 1)) [
    | inl denied ↦ rw denied (closed-Safe A Q (minus 8) "inappropriate permissions on device!" s h)
    | inr free ↦ rw free (closed-Safe A Q r str s h)
  ]

  module _ (host : Host W) (enum : Enumeration W) where
    must-Closes :
        (f : Function W ℤ) (r : ℤ) (str : String)
        → Closes {A = Unit {0}} (Unit {0}) (must host enum f r str)
    must-Closes f r str s = after (f s).0 (f s).1
      where
        after :
            (code : ℤ) (s' : Sys W)
            → Safe {A = Unit {0}}
                (Unit {0})
                ((if is_nonzero code then close host >> error_return r str else pure tt) s')
        after code s' = elim (Bool-cases (is_nonzero code)) [
          | inl bad ↦ rw bad (
              close_then-Closes host (Unit {0}) (Unit {0}) (error_return r str)
                (closed-Safe (Unit {0}) (Unit {0}) r str) s')
          | inr good ↦ rw good tt
        ]

    or_close-Closes :
        (f : W → ℤ × W) (errno : ℕ) (r : ℤ) (str : String)
        → Closes {A = Unit {0}} (Unit {0}) (or_close host enum f errno r str)
    or_close-Closes f errno r str s = after (f s.world).0 (record s { world = (f s.world).1 })
      where
        after :
            (code : ℤ) (s' : Sys W)
            → Safe {A = Unit {0}}
                (Unit {0})
                ((if is_negative code then close host >> refuse errno r str else pure tt) s')
        after code s' = elim (Bool-cases (is_negative code)) [
          | inl bad ↦ rw bad (
              close_then-Closes host (Unit {0}) (Unit {0}) (refuse errno r str)
                (refuse-Safe (Unit {0}) (Unit {0}) errno r str) s')
          | inr good ↦ rw good tt
        ]

    configure-Closes :
        (desc : Descriptor) (handle cfg cfg0 errno : ℕ)
        → Closes {A = Unit {0}} (Unit {0}) (configure host enum desc handle cfg cfg0 errno)
    configure-Closes desc handle cfg cfg0 errno s =
        elim (Bool-cases (ltb 0 desc.num_configurations && not (cfg == cfg0))) [
          | inl differs ↦ rw differs (
              or_close-Closes (enum.set_configuration handle cfg0) errno (minus 3)
                "unable to set usb configuration. Make sure the default FTDI driver is not in use"
                s)
          | inr same ↦ rw same tt
        ]

    detach-Closes :
        (mode : DetachMode) (handle interface : ℕ)
        → Closes {A = ℕ} (Unit {0}) (detach host enum mode handle interface)
    detach-Closes DetachMode.auto_detach handle interface s = tt
    detach-Closes DetachMode.auto_detach_reattach handle interface s = tt
    detach-Closes DetachMode.dont_detach handle interface s = tt

    recognise-Closes :
        (desc : Descriptor) (dev : ℕ)
        → Closes {A = Unit {0}} (Unit {0}) (recognise host enum desc dev)
    recognise-Closes desc dev s = after s.ftdi s.world
      where
        after :
            (o : Option Context) (w : W)
            → Safe {A = Unit {0}}
                (Unit {0})
                (recognise host enum desc dev (record { ftdi = o; world = w }))
        after none w = λ e. refl
        after (some c) w = tt

    must_then-Closes :
        (f : Function W ℤ) (r : ℤ) (str : String) (k : Action W ℤ)
        → Closes {A = ℤ} ⊥ k
        → Closes {A = ℤ} ⊥ (must host enum f r str >> k)
    must_then-Closes f r str k h =
        bind-Closes ⊥ (must host enum f r str) (λ u. k) (must-Closes f r str) (λ u. h)

    set_up-Closes :
        (desc : Descriptor) (dev : ℕ) (c : Context) (handle errno : ℕ)
        → Closes {A = ℤ} ⊥ (set_up host enum desc dev c handle errno)
    set_up-Closes desc dev c handle errno =
        let fine : Action W ℤ = error_return (pos 0) "all fine" in
        let rate = must host enum (set_baudrate host (pos 9600)) (minus 7) "set baudrate failed" in
        let chip = recognise host enum desc dev >> (rate >> fine) in
        let reset = must host enum (usb_reset host) (minus 6) "ftdi_usb_reset failed" in
        let last =
          must_then-Closes (set_baudrate host (pos 9600)) (minus 7) "set baudrate failed" fine
            (error_return-Closes ℤ ⊥ (pos 0) "all fine" refl) in
        let middle =
          bind-Closes ⊥ (recognise host enum desc dev) (λ u. rate >> fine)
            (recognise-Closes desc dev) (λ u. last) in
        let str : String =
          "unable to claim usb device. Make sure the default FTDI driver is not in use" in
        bind-Closes ⊥
          (or_close host enum (enum.claim_interface handle c.interface) errno (minus 5) str)
          (λ u. reset >> chip)
          (or_close-Closes (enum.claim_interface handle c.interface) errno (minus 5) str)
          (λ u. must_then-Closes (usb_reset host) (minus 6) "ftdi_usb_reset failed" chip middle)

    prepare-Closes :
        (desc : Descriptor) (dev : ℕ) (c : Context) (handle cfg0 : ℕ)
        → Closes {A = ℤ} ⊥ (prepare host enum desc dev c handle cfg0)
    prepare-Closes desc dev c handle cfg0 =
        bind-Closes ⊥ (detach host enum c.module_detach_mode handle c.interface) _
          (detach-Closes c.module_detach_mode handle c.interface)
          (λ errno s.
            after errno (enum.get_configuration handle s.world).0
              (enum.get_configuration handle s.world).1
              (record s { world = (enum.get_configuration handle s.world).2 }))
      where
        str : String
        str = "libusb_get_configuration () failed"

        after :
            (errno : ℕ) (r : ℤ) (cfg : ℕ)
            → Closes {A = ℤ} ⊥ (
                error_if (is_negative r) (minus 12) str
                >> (configure host enum desc handle cfg cfg0 errno
                    >> set_up host enum desc dev c handle errno))
        after errno r cfg =
            bind-Closes ⊥ (error_if (is_negative r) (minus 12) str)
              (λ u.
                configure host enum desc handle cfg cfg0 errno
                >> set_up host enum desc dev c handle errno)
              (error_if-Closes (is_negative r) (minus 12) str refl)
              (λ u.
                bind-Closes ⊥ (configure host enum desc handle cfg cfg0 errno)
                  (λ u. set_up host enum desc dev c handle errno)
                  (configure-Closes desc handle cfg cfg0 errno)
                  (λ u. set_up-Closes desc dev c handle errno))

    if_then-Closes :
        (b : Bool) (r : ℤ) (str : String) (k : Action W ℤ)
        → is_closing r ≡ false
        → Closes {A = ℤ} ⊥ k
        → Closes {A = ℤ} ⊥ (error_if b r str >> k)
    if_then-Closes b r str k h next =
        bind-Closes ⊥ (error_if b r str) (λ u. k) (error_if-Closes b r str h) (λ u. next)

    examine-Closes :
        (dev : ℕ) (c : Context) (handle : ℕ) → Closes {A = ℤ} ⊥ (examine host enum dev c handle)
    examine-Closes dev c handle =
        bind-Closes ⊥ (descriptor_of enum dev) _ (λ s. tt)
          (λ (r, desc).
            if_then-Closes (is_negative r) (minus 9) "libusb_get_device_descriptor() failed" _ refl
              (bind-Closes ⊥ (config_of enum dev) _ (λ s. tt)
                (λ (r, config0).
                  if_then-Closes (is_negative r) (minus 10) "libusb_get_config_descriptor() failed"
                    _ refl (prepare-Closes desc dev c handle config0.configuration_value))))

    open_steps-Closes : (dev : ℕ) → Closes {A = ℤ} ⊥ (open_steps host enum dev)
    open_steps-Closes dev s = after s.ftdi s.world
      where
        after :
            (o : Option Context) (w : W)
            → Safe {A = ℤ} ⊥ (open_steps host enum dev (record { ftdi = o; world = w }))
        after none w = λ e. refl
        after (some c) w =
            let (r, handle, w') = enum.open_device dev w in
            let c' = if is_negative r then c else record c { usb_dev = some handle } in
            if_then-Closes (is_negative r) (minus 4) "libusb_open() failed"
              (examine host enum dev c handle) refl (examine-Closes dev c handle)
              (record { ftdi = some c'; world = w' })

    -- If ftdi_usb_open_dev returns -3, -5, -6, -7 or -8, because the configuration, the interface, the
    -- reset or the baud rate was refused, permissions were missing or there is no context, then no
    -- device is open in the context.
    pub open_dev-closed :
        (dev : ℕ) (s : Sys W)
        → is_closing (open_dev host enum dev s).0 ≡ true
        → is_open (open_dev host enum dev s).1 ≡ false
    unfolding open_dev
    open_dev-closed dev s h =
        after (open_steps host enum dev s).0 (open_steps host enum dev s).1
          (open_steps-Closes dev s) h
      where
        after :
            (e : Exit ℤ) (s' : Sys W)
            → Safe {A = ℤ} ⊥ (e, s')
            → is_closing (result e) ≡ true
            → is_open s' ≡ false
        after (done r) s' bad h = absurd bad
        after (returned r) s' good h = good h
