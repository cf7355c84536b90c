-- ===== src/Device/Channel.antt =====
-- The channels of a chip: number `n` from 0 is interface `n` of the device, with wIndex `n + 1` and the
-- endpoints `2 n + 2` to the device and `2 n + 1` from it.
use libsgftdi.Base.{
  ℕ, ℤ, pos, minus, ◌+◌, ◌-◌, ◌*◌, ◌<◌, ◌≡◌, ◌==◌, ◌≤◌, ◌≢◌, some, none, Option, not, if◌then◌else◌,
  refl, arith,
}
use libsgftdi.Context.{Context}
use libsgftdi.Control.Wire.{system, quiet}
use libsgftdi.Usb.{Sys}
use libsgftdi.Device.Interface.{set_interface, is_locked, channel}
use libsgftdi.Base.{◌⊎◌, inl, inr, Bool-cases, zero, suc, true, false}
use mathlib.Core.Option

beyond :
    (i : ℕ)
    → 4 < i
    → ((i == 0) ≡ false)
      × ((i == 1) ≡ false)
      × ((i == 2) ≡ false)
      × ((i == 3) ≡ false)
      × ((i == 4) ≡ false)
beyond i h = (ground arith, ground arith, ground arith, ground arith, ground arith)

-- The channel that a call asks for, as wIndex has it: any is the first.
abbrev pub asked : ℕ → ℕ
asked i = i - 1 + 1

-- An open device that is bound to another channel.
abbrev pub IsBusy : ℕ → Context → Type 0
IsBusy i c = (c.usb_dev ≢ none) × (c.index ≢ asked i)

-- What a call leaves: the channel that was asked for, or the one that was there.
abbrev pub Bound : {W : Type 0} → ℕ → Context → W → ℤ × Sys W → Type 0
Bound i c w r =
    ((¬ IsBusy i c)
      × (i ≤ 4)
      × (r.0 ≡ pos 0)
      × (r.1 ≡ system (channel (i - 1) (i - 1 + 1) (2 * (i - 1) + 2) (0x81 + 2 * (i - 1)) c) w))
    ⊎ ((r.1.world ≡ w)
        × (Option.map quiet r.1.ftdi ≡ some (quiet c))
        × (((r.0 ≡ minus 3) × IsBusy i c) ⊎ ((r.0 ≡ minus 1) × (¬ IsBusy i c) × (4 < i))))

busy : (i : ℕ) (c : Context) → is_locked i c ≡ true → IsBusy i c
busy i c h = by_device c.usb_dev h
  where
    by_device :
        (dev : Option ℕ)
        → (elim dev [ none ↦ false | some d ↦ not (c.index == (if i == 0 then 1 else i)) ]) ≡ true
        → (dev ≢ none) × (c.index ≢ asked i)
    by_device none h = cc
    by_device (some d) h = (λ e. cc, λ e. ground (arith, h, e))

idle : (i : ℕ) (c : Context) → is_locked i c ≡ false → ¬ IsBusy i c
idle i c h = by_device c.usb_dev h
  where
    by_device :
        (dev : Option ℕ)
        → (elim dev [ none ↦ false | some d ↦ not (c.index == (if i == 0 then 1 else i)) ]) ≡ false
        → ¬ ((dev ≢ none) × (c.index ≢ asked i))
    by_device none h (given, other) = given refl
    by_device (some d) h (given, other) = other (ground (arith, h))

module _ {W : Type 0} (c : Context) (w : W) where
  abbrev Calls : ℕ → Type 0
  Calls i = Bound i c w (set_interface i (system c w))

  unlocked : (i : ℕ) → is_locked i c ≡ false → Calls i
  unfolding set_interface
  unlocked zero h = rw h (inl (idle zero c h, omega arith, refl, refl))
  unlocked (suc zero) h = rw h (inl (idle (suc zero) c h, omega arith, refl, refl))
  unlocked (suc (suc zero)) h = rw h (inl (idle (suc (suc zero)) c h, omega arith, refl, refl))
  unlocked (suc (suc (suc zero))) h =
      rw h (inl (idle (suc (suc (suc zero))) c h, omega arith, refl, refl))
  unlocked (suc (suc (suc (suc zero)))) h =
      rw h (inl (idle (suc (suc (suc (suc zero)))) c h, omega arith, refl, refl))
  unlocked (suc (suc (suc (suc (suc i))))) h =
      let (a, b, d, e, f) = beyond (suc (suc (suc (suc (suc i))))) (omega arith) in
      rw (h, a, b, d, e, f)
        (inr (refl, refl, inr (refl, idle (suc (suc (suc (suc (suc i))))) c h, omega arith)))

  -- ftdi_set_interface binds the context to the channel that was asked for (any is the first), which is
  -- one of the four, if the device is not open on another channel; or it leaves the context as it was
  -- but for the message: with -3 if the device is open on another channel, and else with -1, if there
  -- is no such channel.
  pub set_interface-Bound : (i : ℕ) → Bound i c w (set_interface i (system c w))
  unfolding set_interface
  set_interface-Bound i = elim (Bool-cases (is_locked i c)) [
    | inl locked ↦ rw locked (inr (refl, refl, inl (refl, busy i c locked)))
    | inr free ↦ unlocked i free
  ]
