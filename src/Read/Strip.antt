-- ===== src/Read/Strip.antt =====
-- Closing the gaps in place gives the payload of the transfer.
use libsgftdi.Base.{ℕ, zero, suc, ◌+◌, ◌-◌, ◌*◌, ◌/◌, ◌%◌, ◌≤◌, ◌<◌, ◌≡◌, refl, ap, sym, ◌∙◌}
use libsgftdi.Base.{arith, List, [], ◌++◌, memmove, ◌⊎◌, inl, inr}
use mathlib.Core.List.{append-nil}
use libsgftdi.Read.Buffer.{slice, compact, strip, Stripped}
use libsgftdi.Read.Payload.{payload, payload_of, payload_of-slice, heads, slice_at}
use libsgftdi.Read.Payload.{length-slice}
use libsgftdi.Read.Compact.{whole_packets, last_packet}

-- The three outcomes of the tests on the lengths.
strip_short :
    (p n : ℕ) (m : ℕ → ℕ)
    → 2 < n
    → n ≤ p
    → strip p 2 n m ≡ record { buffer = m; actual_length = n - 2 }
unfolding strip
strip_short p n m lo h = ground arith

strip_tail :
    (p n : ℕ) (m : ℕ → ℕ)
    → 2 ≤ p
    → p < n
    → 2 < n % p
    → strip p 2 n m ≡ record {
      buffer =
          memmove
            (2 + (p - 2) * (n / p))
            (2 + p * (n / p))
            (n % p - 2)
            (compact p 2 (n / p - 1) 1 m);
      actual_length = n - 2 - 2 * (n / p);
    }
unfolding strip
strip_tail p n m lo h tail = ground arith

strip_whole :
    (p n : ℕ) (m : ℕ → ℕ)
    → 2 ≤ p
    → p < n
    → n % p ≤ 2
    → strip p 2 n m ≡ record {
      buffer = compact p 2 (n / p - 1) 1 m;
      actual_length = n - 2 - (2 * (n / p - 1) + n % p);
    }
unfolding strip
strip_whole p n m lo h tail = ground arith

-- The payload by whole packets and a last one.
module _ (p n : ℕ) (m : ℕ → ℕ) (lo : 2 < p) (long : 2 < n) where
  abbrev parts : ℕ → ℕ → List ℕ
  parts num r = heads p num 0 m ++ slice m (0 + p * num + 2) (r - 2)

  payload-parts : payload p (slice m 0 n) ≡ parts (n / p) (n % p)
  unfolding payload
  payload-parts =
      ap (λ f. payload_of p f (slice m 0 n)) (length-slice m 0 n)
      ∙ ap (payload_of p n) (slice_at m {n' = p * (n / p) + n % p} refl (grind arith))
      ∙ payload_of-slice p (n / p) n (n % p) 0 m (omega arith) (grind arith)

  abbrev Sound : Stripped → ℕ → ℕ → Type 0
  Sound s num r = (0 < s.actual_length) × (slice s.buffer 2 s.actual_length ≡ parts num r)

  scaled : (t : ℕ) → p * t ≡ (p - 2) * t + 2 * t
  scaled t = let e : p ≡ p - 2 + 2 = omega arith in omega (arith, ap (λ (x : ℕ). x * t) e)

  no_bytes : (r a : ℕ) (l : List ℕ) → r ≤ 2 → l ++ slice m a (r - 2) ≡ l
  no_bytes r a l h =
      ap (λ t. l ++ t) (slice_at m {s' = a} {n' = 0} refl (omega arith)) ∙ append-nil l

  one_packet : (k r : ℕ) → n ≤ p → n ≡ p * suc k + r → slice m 2 (n - 2) ≡ parts (suc k) r
  one_packet zero r le sum =
      slice_at m {s' = 0 + 2} {n' = p - 2} refl (omega arith)
      ∙ sym (append-nil (slice m (0 + 2) (p - 2)))
      ∙ sym (no_bytes r (0 + p * 1 + 2) (slice m (0 + 2) (p - 2) ++ []) (omega arith))
  one_packet (suc k) r le sum = absurd (grind arith)

  with_tail :
      (k r : ℕ)
      → n ≡ p * suc k + r
      → 2 < r
      → Sound
          (record {
            buffer =
                memmove (2 + (p - 2) * suc k) (2 + p * suc k) (r - 2) (compact p 2 (suc k - 1) 1 m);
            actual_length = n - 2 - 2 * suc k;
          })
          (suc k)
          r
  with_tail k r sum tail =
      let before : suc k - 1 ≡ k = omega arith in
      let count : n - 2 - 2 * suc k ≡ (p - 2) * suc k + (r - 2) = omega (arith, scaled (suc k)) in
      rw (before, count) (omega arith, last_packet p k r m (omega arith))

  no_tail :
      (k r : ℕ)
      → n ≡ p * suc k + r
      → r ≤ 2
      → Sound
          (record {
            buffer = compact p 2 (suc k - 1) 1 m;
            actual_length = n - 2 - (2 * (suc k - 1) + r);
          })
          (suc k)
          r
  no_tail k r sum whole =
      let before : suc k - 1 ≡ k = omega arith in
      let count : n - 2 - (2 * k + r) ≡ (p - 2) * suc k = omega (arith, scaled (suc k)) in
      rw (before, count)
        (
          grind arith,
          whole_packets p k m (omega arith)
              ∙ sym (no_bytes r (0 + p * suc k + 2) (heads p (suc k) 0 m) whole),
        )

  sound :
      (num r : ℕ) → n / p ≡ num → n % p ≡ r → n ≡ p * num + r → r < p → Sound (strip p 2 n m) num r
  sound zero r q e sum fit =
      rw (strip_short p n m long (omega arith))
        (omega arith, slice_at m (omega arith) (omega arith))
  sound (suc k) r q e sum fit = elim (split k) [
    | inl one ↦ rw (strip_short p n m long one) (omega arith, one_packet k r one sum)
    | inr (inl tail) ↦
        rw (strip_tail p n m (omega arith) tail.0 (rw e tail.1), q, e) (with_tail k r sum tail.1)
    | inr (inr whole) ↦
        rw (strip_whole p n m (omega arith) whole.0 (rw e whole.1), q, e) (no_tail k r sum whole.1)
  ]
    where
      split : (k : ℕ) → (n ≤ p) ⊎ (((p < n) × (2 < r)) ⊎ ((p < n) × (r ≤ 2)))
      split k = omega arith

-- A transfer of more than the two status bytes leaves at least a byte, and what it leaves is the
-- payload of its packets, in order.
pub strip-payload :
    (p n : ℕ) (m : ℕ → ℕ)
    → 2 < p
    → 2 < n
    → let s = strip p 2 n m in
      (0 < s.actual_length) × (slice s.buffer 2 s.actual_length ≡ payload p (slice m 0 n))
strip-payload p n m lo long =
    let (some_left, same) =
      sound p n m lo long (n / p) (n % p) refl refl (grind arith) (omega arith) in
    (some_left, same ∙ sym (payload-parts p n m lo long))
