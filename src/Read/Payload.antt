-- ===== src/Read/Payload.antt =====
-- What a transfer carries: every packet of `p` bytes begins with two status bytes, also a last one
-- that is shorter.
use libsgftdi.Base.{ℕ, zero, suc, ◌+◌, ◌-◌, ◌*◌, ◌≤◌, ◌<◌, ◌≡◌, refl, ap, ap₂, sym, ◌∙◌, arith}
use libsgftdi.Base.{List, [], ◌∷◌, ◌++◌, length, take, drop}
use mathlib.Core.List.{append-nil, append_assoc}
use libsgftdi.Read.Buffer.{slice}

-- With enough fuel for the packets.
unfoldable pub payload_of : ℕ → ℕ → List ℕ → List ℕ
payload_of p zero l = []
payload_of p (suc fuel) [] = []
payload_of p (suc fuel) (x ∷ l) = drop 2 (take p (x ∷ l)) ++ payload_of p fuel (drop p (x ∷ l))

unfoldable pub payload : ℕ → List ℕ → List ℕ
unfolding payload_of
payload p l = payload_of p (length l) l

pub length-slice : (m : ℕ → ℕ) (s n : ℕ) → length (slice m s n) ≡ n
length-slice m s zero = refl
length-slice m s (suc n) = ap suc (length-slice m (s + 1) n)

-- Two slices at equal places.
pub slice_at : (m : ℕ → ℕ) {s s' n n' : ℕ} → s ≡ s' → n ≡ n' → slice m s n ≡ slice m s' n'
slice_at m e f = ap₂ (slice m) e f

byte_at : (m : ℕ → ℕ) {s s' : ℕ} → s ≡ s' → m s ≡ m s'
byte_at m e = ap m e

pub slice_ext :
    (m m' : ℕ → ℕ) (s s' n : ℕ)
    → ((k : ℕ) → k < n → m (s + k) ≡ m' (s' + k))
    → slice m s n ≡ slice m' s' n
slice_ext m m' s s' zero h = refl
slice_ext m m' s s' (suc n) h =
    ap₂ ◌∷◌ (byte_at m (omega arith) ∙ h 0 (omega arith) ∙ byte_at m' (omega arith)) (
      slice_ext m m' (s + 1) (s' + 1) n
        λ k lt. byte_at m (omega arith) ∙ h (suc k) (omega arith) ∙ byte_at m' (omega arith))

pub slice-append : (m : ℕ → ℕ) (s a b : ℕ) → slice m s (a + b) ≡ slice m s a ++ slice m (s + a) b
slice-append m s zero b = slice_at m {s' = s + 0} {n' = b} (omega arith) (omega arith)
slice-append m s (suc a) b =
    slice_at m {n' = suc (a + b)} refl (omega arith)
    ∙ ap (λ l. m s ∷ l)
        (slice-append m (s + 1) a b
          ∙ ap (λ l. slice m (s + 1) a ++ l) (slice_at m (omega arith) refl))

pub take-slice : (k n s : ℕ) (m : ℕ → ℕ) → k ≤ n → take k (slice m s n) ≡ slice m s k
take-slice zero n s m h = refl
take-slice (suc k) zero s m h = absurd (omega arith)
take-slice (suc k) (suc n) s m h = ap (λ l. m s ∷ l) (take-slice k n (s + 1) m (omega arith))

pub take_all-slice : (k n s : ℕ) (m : ℕ → ℕ) → n ≤ k → take k (slice m s n) ≡ slice m s n
take_all-slice zero zero s m h = refl
take_all-slice (suc k) zero s m h = refl
take_all-slice zero (suc n) s m h = absurd (omega arith)
take_all-slice (suc k) (suc n) s m h =
    ap (λ l. m s ∷ l) (take_all-slice k n (s + 1) m (omega arith))

pub drop-slice : (k n s : ℕ) (m : ℕ → ℕ) → drop k (slice m s n) ≡ slice m (s + k) (n - k)
drop-slice zero n s m = slice_at m (omega arith) (omega arith)
drop-slice (suc k) zero s m = slice_at m {n = 0} refl (omega arith)
drop-slice (suc k) (suc n) s m = drop-slice k n (s + 1) m ∙ slice_at m (omega arith) (omega arith)

-- The payloads of `k` whole packets that begin at `s`.
abbrev pub heads : ℕ → ℕ → ℕ → (ℕ → ℕ) → List ℕ
heads p zero s m = []
heads p (suc k) s m = slice m (s + 2) (p - 2) ++ heads p k (s + p) m

payload_of-nil : (p fuel : ℕ) → payload_of p fuel [] ≡ []
unfolding payload_of
payload_of-nil p zero = refl
payload_of-nil p (suc fuel) = refl

payload_of-step :
    (p fuel : ℕ) (l : List ℕ)
    → payload_of p (suc fuel) l ≡ drop 2 (take p l) ++ payload_of p fuel (drop p l)
unfolding payload_of
payload_of-step zero fuel [] = sym (payload_of-nil 0 fuel)
payload_of-step (suc p) fuel [] = sym (payload_of-nil (suc p) fuel)
payload_of-step p fuel (x ∷ l) = refl

-- The payload of a last packet of `r` bytes, which may be none.
payload_of-last :
    (p fuel r s : ℕ) (m : ℕ → ℕ)
    → r < p
    → payload_of p (suc fuel) (slice m s r) ≡ slice m (s + 2) (r - 2)
payload_of-last p fuel r s m h =
    payload_of-step p fuel (slice m s r)
    ∙ ap₂ ◌++◌ first (
        ap (payload_of p fuel) (drop-slice p r s m ∙ slice_at m {n' = 0} refl (omega arith))
        ∙ payload_of-nil p fuel)
    ∙ append-nil _
  where
    first : drop 2 (take p (slice m s r)) ≡ slice m (s + 2) (r - 2)
    first = ap (drop 2) (take_all-slice p r s m (omega arith)) ∙ drop-slice 2 r s m

pub payload_of-slice :
    (p k fuel r s : ℕ) (m : ℕ → ℕ)
    → r < p
    → k < fuel
    → payload_of p fuel (slice m s (p * k + r)) ≡ heads p k s m ++ slice m (s + p * k + 2) (r - 2)
payload_of-slice p k zero r s m h enough = absurd (omega arith)
payload_of-slice p zero (suc fuel) r s m h enough =
    ap (payload_of p (suc fuel)) (slice_at m {n' = r} refl (omega arith))
    ∙ payload_of-last p fuel r s m h
    ∙ slice_at m {s' = s + p * 0 + 2} (omega arith) refl
payload_of-slice p (suc k) (suc fuel) r s m h enough =
    payload_of-step p fuel (slice m s (p * suc k + r))
    ∙ ap₂ ◌++◌ first (
        ap (payload_of p fuel) (drop-slice p _ s m ∙ slice_at m {n' = p * k + r} refl (omega arith))
        ∙ payload_of-slice p k fuel r (s + p) m h (omega arith)
        ∙ ap (λ l. heads p k (s + p) m ++ l)
            (slice_at m {s' = s + p * suc k + 2} (omega arith) refl))
    ∙ sym (append_assoc (slice m (s + 2) (p - 2)) (heads p k (s + p) m) _)
  where
    first : drop 2 (take p (slice m s (p * suc k + r))) ≡ slice m (s + 2) (p - 2)
    first = ap (drop 2) (take-slice p (p * suc k + r) s m (omega arith)) ∙ drop-slice 2 p s m
