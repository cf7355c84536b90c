-- ===== src/Stream/Passed.antt =====
-- What a check of the constructor of FtdiStream says if it does not throw.
use libsgftdi.Base.{
  ℕ, ◌≤◌, ◌<◌, ◌≡◌, ◌⊎◌, refl, Bool, true, false, not, Option, none, some, arith, String,
}
use libsgftdi.Stream.State.{Entry, Pool, Outcome, done, thrown, Method, ◌>>=◌, throw_if}
use libsgftdi.Stream.Setup.{smaller, check_reading, check_writing, is_empty, same_context}

pub same_context-eq : (a b : Option ℕ) → not (same_context a b) ≡ false → a ≡ b
same_context-eq none none h = refl
same_context-eq none (some b) h = cc
same_context-eq (some a) none h = cc
same_context-eq (some a) (some b) h = ground (arith, h)

pub smaller-le : (a b : ℕ) → (smaller a b ≤ a) × (smaller a b ≤ b)
smaller-le a b = ground arith

module _ {W : Type 0} where
  -- A method that returns: its parts do.
  pub bind-done :
      {A B : Type 0} (m : Method W A) (f : A → Method W B) (s : Pool W) {b : B} {s' : Pool W}
      → (m >>= f) s ≡ (done b, s')
      → (a : A) × (s1 : Pool W) × (m s ≡ (done a, s1)) × (f a s1 ≡ (done b, s'))
  bind-done {A} {B} m f s {b} {s'} = after (m s)
    where
      after :
          (r : Outcome A × Pool W)
          → (elim r.0 as (λ x. Outcome B × Pool W) [
            | done a ↦ f a r.1
            | thrown str ↦ (thrown str, r.1)
          ])
            ≡ (done b, s')
          → (a : A) × (s1 : Pool W) × (r ≡ (done a, s1)) × (f a s1 ≡ (done b, s'))
      after (done a, s1) h = (a, s1, refl, h)
      after (thrown str, s1) h = cc

  pub throw_if-done :
      (test : Bool) (str : String) (s s' : Pool W) (t : Unit {0})
      → throw_if test str s ≡ (done t, s')
      → (test ≡ false) × (s' ≡ s)
  throw_if-done true str s s' t h = cc
  throw_if-done false str s s' t h = (refl, cc)

  pub check_reading-done :
      (stream : Entry W) (s s' : Pool W) (b : Bool)
      → check_reading stream s ≡ (done b, s')
      → (s' ≡ s)
        × ((stream.read_transfers ≡ 0)
            ⊎ ((is_empty stream.read_callback ≡ false) × (0 < stream.read_packets_per_transfer)))
  check_reading-done stream s s' b h = ground arith

  pub check_writing-done :
      (stream : Entry W) (s s' : Pool W) (b : Bool)
      → check_writing stream s ≡ (done b, s')
      → (s' ≡ s)
        × ((stream.write_transfers ≡ 0)
            ⊎ ((stream.write_transfers ≡ 1)
                × (is_empty stream.write_callback ≡ false)
                × (0 < stream.write_packets_per_transfer)))
  check_writing-done stream s s' b h = ground arith
