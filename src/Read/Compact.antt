-- ===== src/Read/Compact.antt =====
-- The loop that closes the gaps in place leaves the payloads of the packets one behind the other.
use libsgftdi.Base.{ℕ, zero, suc, ◌+◌, ◌-◌, ◌*◌, ◌≤◌, ◌<◌, ◌≡◌, refl, ap, ap₂, ◌∙◌}
use libsgftdi.Base.{arith, ◌++◌, memmove, ◌⊎◌, inl, inr}
use libsgftdi.Read.Buffer.{slice, compact}
use libsgftdi.Read.Payload.{heads, slice_at, slice_ext}
use libsgftdi.Read.Payload.{slice-append}

-- What a move leaves alone, and what it writes.
moved_outside :
    (m : ℕ → ℕ) (dst src n a : ℕ) → (a < dst) ⊎ (dst + n ≤ a) → memmove dst src n m a ≡ m a
moved_outside m dst src n a h = ground arith

moved_inside : (m : ℕ → ℕ) (dst src n k : ℕ) → k < n → memmove dst src n m (dst + k) ≡ m (src + k)
moved_inside m dst src n k h = ground (arith, ap (λ t. m (src + t)) same)
  where
    same : dst + k - dst ≡ k
    same = omega arith

module _ (p : ℕ) where
  -- What the loop leaves alone: the packets before round `i`, and all behind the last round.
  compact-below :
      (rounds i : ℕ) (m : ℕ → ℕ) (a : ℕ) → a < 2 + (p - 2) * i → compact p 2 rounds i m a ≡ m a
  unfolding compact
  compact-below zero i m a h = refl
  compact-below (suc rounds) i m a h =
      compact-below rounds (i + 1) (memmove (2 + (p - 2) * i) (2 + p * i) (p - 2) m) a (grind arith)
      ∙ moved_outside m (2 + (p - 2) * i) (2 + p * i) (p - 2) a (inl h)

  compact-above :
      (rounds i : ℕ) (m : ℕ → ℕ) (a : ℕ)
      → 2 + (p - 2) * (i + rounds) ≤ a
      → compact p 2 rounds i m a ≡ m a
  unfolding compact
  compact-above zero i m a h = refl
  compact-above (suc rounds) i m a h =
      compact-above rounds (i + 1) (memmove (2 + (p - 2) * i) (2 + p * i) (p - 2) m) a (grind arith)
      ∙ moved_outside m (2 + (p - 2) * i) (2 + p * i) (p - 2) a (inr (grind arith))

  heads_ext :
      (k s : ℕ) (m m' : ℕ → ℕ) → ((a : ℕ) → s ≤ a → m a ≡ m' a) → heads p k s m ≡ heads p k s m'
  heads_ext zero s m m' h = refl
  heads_ext (suc k) s m m' h =
      ap₂ ◌++◌ (slice_ext m m' (s + 2) (s + 2) (p - 2) (λ j lt. h (s + 2 + j) (omega arith)))
        (heads_ext k (s + p) m m' (λ a le. h a (omega arith)))

  -- After the rounds from `i` on, their payloads stand one behind the other.
  abbrev Gathered : ℕ → ℕ → (ℕ → ℕ) → Type 0
  Gathered rounds i m =
      slice (compact p 2 rounds i m) (2 + (p - 2) * i) ((p - 2) * rounds) ≡ heads p rounds (p * i) m

  one_round :
      (rounds i : ℕ) (m : ℕ → ℕ)
      → 2 ≤ p
      → Gathered rounds (i + 1) (memmove (2 + (p - 2) * i) (2 + p * i) (p - 2) m)
      → Gathered (suc rounds) i m
  unfolding compact
  one_round rounds i m h ih =
      slice_at after {s' = 2 + d * i} {n' = d + d * rounds} refl (grind arith)
      ∙ slice-append after (2 + d * i) d (d * rounds)
      ∙ ap₂ ◌++◌ (slice_ext after m (2 + d * i) (p * i + 2) d first) rest
    where
      d : ℕ
      d = p - 2

      moved : ℕ → ℕ
      moved = memmove (2 + (p - 2) * i) (2 + p * i) (p - 2) m

      after : ℕ → ℕ
      after = compact p 2 rounds (i + 1) moved

      first : (k : ℕ) → k < d → after (2 + d * i + k) ≡ m (p * i + 2 + k)
      first k lt =
          compact-below rounds (i + 1) moved (2 + d * i + k) (grind arith)
          ∙ moved_inside m (2 + d * i) (2 + p * i) d k lt
          ∙ ap m (omega arith)

      untouched : (a : ℕ) → p * (i + 1) ≤ a → moved a ≡ m a
      untouched a le = moved_outside m (2 + d * i) (2 + p * i) d a (inr (grind arith))

      rest : slice after (2 + d * i + d) (d * rounds) ≡ heads p rounds (p * i + p) m
      rest =
          slice_at after {s' = 2 + d * (i + 1)} {n' = d * rounds} (grind arith) refl
          ∙ ih
          ∙ heads_ext rounds (p * (i + 1)) moved m untouched
          ∙ ap (λ t. heads p rounds t m) (omega arith)

  compact-heads : (rounds i : ℕ) (m : ℕ → ℕ) → 2 ≤ p → Gathered rounds i m
  unfolding compact
  compact-heads zero i m h = slice_at m {n' = 0} refl (omega arith)
  compact-heads (suc rounds) i m h =
      one_round rounds i m h
        (compact-heads rounds (i + 1) (memmove (2 + (p - 2) * i) (2 + p * i) (p - 2) m) h)

  -- The loop from round 1 on leaves the payloads of all whole packets behind the first status.
  pub whole_packets :
      (k : ℕ) (m : ℕ → ℕ)
      → 2 ≤ p
      → slice (compact p 2 k 1 m) 2 ((p - 2) * suc k) ≡ heads p (suc k) 0 m
  whole_packets k m h =
      slice_at after {s' = 2} {n' = (p - 2) + (p - 2) * k} refl (grind arith)
      ∙ slice-append after 2 (p - 2) ((p - 2) * k)
      ∙ ap₂ ◌++◌ (slice_ext after m 2 2 (p - 2) first) (
          slice_at after {s' = 2 + (p - 2) * 1} {n' = (p - 2) * k} (omega arith) refl
          ∙ compact-heads k 1 m h
          ∙ ap (λ t. heads p k t m) (omega arith))
    where
      after : ℕ → ℕ
      after = compact p 2 k 1 m

      first : (j : ℕ) → j < p - 2 → after (2 + j) ≡ m (2 + j)
      first j lt = compact-below k 1 m (2 + j) (omega arith)

  -- A last packet of `r` bytes is moved behind them.
  pub last_packet :
      (k r : ℕ) (m : ℕ → ℕ)
      → 2 ≤ p
      → let after = compact p 2 k 1 m in
        slice
          (memmove (2 + (p - 2) * suc k) (2 + p * suc k) (r - 2) after)
          2
          ((p - 2) * suc k + (r - 2))
        ≡ heads p (suc k) 0 m ++ slice m (0 + p * suc k + 2) (r - 2)
  last_packet k r m h =
      slice-append final 2 (d * suc k) (r - 2)
      ∙ ap₂ ◌++◌ (slice_ext final after 2 2 (d * suc k) kept ∙ whole_packets k m h)
          (slice_ext final m (2 + d * suc k) (0 + p * suc k + 2) (r - 2) copied)
    where
      d : ℕ
      d = p - 2

      after : ℕ → ℕ
      after = compact p 2 k 1 m

      final : ℕ → ℕ
      final = memmove (2 + d * suc k) (2 + p * suc k) (r - 2) after

      kept : (j : ℕ) → j < d * suc k → final (2 + j) ≡ after (2 + j)
      kept j lt =
          moved_outside after (2 + d * suc k) (2 + p * suc k) (r - 2) (2 + j) (inl (omega arith))

      copied : (j : ℕ) → j < r - 2 → final (2 + d * suc k + j) ≡ m (0 + p * suc k + 2 + j)
      copied j lt =
          moved_inside after (2 + d * suc k) (2 + p * suc k) (r - 2) j lt
          ∙ compact-above k 1 m (2 + p * suc k + j) (grind arith)
          ∙ ap m (omega arith)
