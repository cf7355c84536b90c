-- ===== src/Stream/Leads.antt =====
-- What holds once a method of a stream has returned, if something held before.
use libsgftdi.Base.{Bool, true, false, if◌then◌else◌, String}
use libsgftdi.Stream.State.{Pool, Outcome, done, thrown, Method, ◌>>=◌, throw_if}

module _ {W : Type 0} where
  -- What holds of the state once a method has returned.
  abbrev pub Returns : {A : Type 0} → (Pool W → Type 0) → Outcome A × Pool W → Type 0
  Returns Q (done a, s) = Q s
  Returns Q (thrown str, s) = Unit {0}

  abbrev pub Leads : {A : Type 0} → (Pool W → Type 0) → Method W A → (Pool W → Type 0) → Type 0
  Leads P m Q = (s : Pool W) → P s → Returns Q (m s)

  pub bind-Leads :
      {A B : Type 0} (P Q R : Pool W → Type 0) (m : Method W A) (f : A → Method W B)
      → Leads P m Q
      → ((a : A) → Leads Q (f a) R)
      → Leads P (m >>= f) R
  bind-Leads {A} {B} P Q R m f first next s h = after (m s) (first s h)
    where
      after :
          (r : Outcome A × Pool W)
          → Returns Q r
          → Returns R (elim r.0 as (λ x. Outcome B × Pool W) [
            | done a ↦ f a r.1
            | thrown str ↦ (thrown str, r.1)
          ])
      after (done a, s1) k = next a s1 k
      after (thrown str, s1) k = tt

  pub Returns-map :
      {A : Type 0} (P Q : Pool W → Type 0)
      → ((s : Pool W) → P s → Q s)
      → (r : Outcome A × Pool W) → Returns P r
      → Returns Q r
  Returns-map P Q f (done a, s) h = f s h
  Returns-map P Q f (thrown str, s) h = tt

  pub throw_if-Leads :
      (P : Pool W → Type 0) (test : Bool) (str : String) → Leads P (throw_if test str) P
  throw_if-Leads P true str s h = tt
  throw_if-Leads P false str s h = h

  pub if-Returns :
      {A : Type 0} (Q : Pool W → Type 0) (test : Bool) (r r' : Outcome A × Pool W)
      → Returns Q r
      → Returns Q r'
      → Returns Q (if test then r else r')
  if-Returns Q true r r' h h' = h
  if-Returns Q false r r' h h' = h'
