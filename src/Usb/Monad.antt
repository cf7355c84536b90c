-- ===== src/Usb/Monad.antt =====
-- The monad of a C function: it reads and changes the state, and any step may return early.
use libsgftdi.Base.{ℕ, ℤ, pos, String, Bool, true, false, Option, none, some}
use libsgftdi.Context.{Context}

-- `ftdi` is the argument `struct ftdi_context *`, `none` if it is NULL.
pub record Sys (W : Type 0) : Type 0 where
  pub ftdi : Option Context
  pub world : W

pub data Exit (A : Type 0) : Type 0 where
  done : A → Exit A
  returned : ℤ → Exit A

abbrev pub Action : Type 0 → Type 0 → Type 0
Action W A = Sys W → Exit A × Sys W

-- A whole function, from the state at the call to its result and the state at the return.
abbrev pub Function : Type 0 → Type 0 → Type 0
Function W A = Sys W → A × Sys W

abbrev pub result : Exit ℤ → ℤ
result (done r) = r
result (returned r) = r

module _ {W : Type 0} where
  infixl 5 ◌>>=◌ ◌>>◌
  abbrev pub ◌>>=◌ : {A B : Type 0} → Action W A → (A → Action W B) → Action W B
  ◌>>=◌ m f s = let (e, s') = m s in elim e [ done a ↦ f a s' | returned r ↦ (returned r, s') ]

  abbrev pub ◌>>◌ : {A B : Type 0} → Action W A → Action W B → Action W B
  m >> k = m >>= λ _. k

  -- `return r;`, wherever it stands
  abbrev pub return : {A : Type 0} → ℤ → Action W A
  return r s = (returned r, s)

  abbrev pub pure : {A : Type 0} → A → Action W A
  pure a s = (done a, s)

  abbrev pub body : Action W ℤ → Function W ℤ
  body m s = let (e, s') = m s in (result e, s')

  -- A function with an output argument, which it writes only when it returns 0.
  abbrev pub body_out : {A : Type 0} → Action W A → Function W (ℤ × Option A)
  body_out m s =
      let (e, s') = m s in elim e [ done a ↦ ((pos 0, some a), s') | returned r ↦ ((r, none), s') ]

  abbrev pub return_if : Bool → ℤ → Action W (Unit {0})
  return_if true r = return r
  return_if false r = pure tt

  abbrev pub call : {A : Type 0} → Function W A → Action W A
  call f s = let (a, s') = f s in (done a, s')

  -- An operation of the host on the outside world.
  abbrev pub outside : {A : Type 0} → (W → A × W) → Action W A
  outside f s = let (a, w) = f s.world in (done a, record s { world = w })

  -- Assignments to fields of `*ftdi`.
  abbrev pub update : (Context → Context) → Action W (Unit {0})
  update f s = (done tt, record s { ftdi = elim s.ftdi [ none ↦ none | some c ↦ some (f c) ] })

  -- The macro ftdi_error_return: the message is kept, or printed if `ftdi` is NULL.
  abbrev pub error_return : {A : Type 0} → ℤ → String → Action W A
  error_return r str s = (
    returned r,
    record s {
      ftdi = elim s.ftdi [ none ↦ none | some c ↦ some (record c { error_str = some str }) ];
    },
  )

  abbrev pub error_if : Bool → ℤ → String → Action W (Unit {0})
  error_if true r str = error_return r str
  error_if false r str = pure tt

  -- if (ftdi == NULL) ftdi_error_return(r, str)
  abbrev pub context : ℤ → String → Action W Context
  context r str s = elim s.ftdi [ none ↦ error_return r str s | some c ↦ (done c, s) ]

  -- if (ftdi == NULL || ftdi->usb_dev == NULL) ftdi_error_return(r, str)
  abbrev pub opened : ℤ → String → Action W (Context × ℕ)
  opened r str s = elim s.ftdi [
    | none ↦ error_return r str s
    | some c ↦ elim c.usb_dev [ none ↦ error_return r str s | some dev ↦ (done (c, dev), s) ]
  ]
