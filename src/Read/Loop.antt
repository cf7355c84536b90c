-- ===== src/Read/Loop.antt =====
-- The loop of ftdi_read_data reaches its end, with the payload of all its transfers.
use mathlib.Core.List.{append-nil, append_assoc}
use libsgftdi.Base.{ℕ, zero, suc, ◌+◌, ◌-◌, ◌≤◌, ◌<◌, ◌≡◌, refl, ap, ap₂, sym, ◌∙◌, inl, inr, subst}
use libsgftdi.Base.{arith, List, [], ◌∷◌, ◌++◌, length, ltb, Bool-cases}
use libsgftdi.Base.{Option, none, some, is_negative, false}
use libsgftdi.Base.{bytes, memcpy}
use libsgftdi.Context.{Context}
use libsgftdi.Usb.{Host}
use libsgftdi.Read.Buffer.{slice, contents, strip}
use libsgftdi.Read.Data.{Reading, Round, stop, more, deliver, read_round, read_loop}
use libsgftdi.Read.Payload.{payload, payload_of}
use libsgftdi.Read.Strip.{strip-payload}
use libsgftdi.Read.Transfer.{transfer, Delivers, finished, failed, received}
use libsgftdi.Read.Deliver.{Handed, received_in, deliver-Handed, gt_of_test, le_of_test}

-- Received bytes in memory are the received bytes.
slice-bytes :
    (l : List ℕ) (s : ℕ) (m : ℕ → ℕ)
    → ((k : ℕ) → k < length l → m (s + k) ≡ bytes l k)
    → slice m s (length l) ≡ l
slice-bytes [] s m h = refl
slice-bytes (x ∷ l) s m h =
    ap₂ ◌∷◌ (ap m (omega arith) ∙ h 0 (omega arith))
      (slice-bytes l (s + 1) m λ k lt. ap m (omega arith) ∙ h (suc k) (omega arith))

pub in_range : (from m : ℕ → ℕ) (n k : ℕ) → k < n → memcpy 0 from 0 n m (0 + k) ≡ from k
in_range from m n k h = ground (arith, ap from index)
  where
    index : 0 + (0 + k - 0) ≡ k
    index = omega arith

slice-memcpy : (l : List ℕ) (m : ℕ → ℕ) → slice (memcpy 0 (bytes l) 0 (length l) m) 0 (length l) ≡ l
slice-memcpy l m =
    slice-bytes l 0 (memcpy 0 (bytes l) 0 (length l) m) λ k lt. in_range (bytes l) m (length l) k lt

pub payload-short : (p : ℕ) (l : List ℕ) → 2 < p → length l ≤ 2 → payload p l ≡ []
unfolding payload payload_of
payload-short (suc (suc (suc p))) [] lo h = refl
payload-short (suc (suc (suc p))) (x ∷ []) lo h = refl
payload-short (suc (suc (suc p))) (x ∷ y ∷ []) lo h = refl
payload-short (suc (suc (suc p))) (x ∷ y ∷ z ∷ l) lo h = absurd (omega arith)
payload-short (suc (suc zero)) l lo h = absurd (omega arith)
payload-short (suc zero) l lo h = absurd (omega arith)
payload-short zero l lo h = absurd (omega arith)

module _ {W : Type 0} (host : Host W) (dev size : ℕ) (c : Context)
    (lo : 2 < c.max_packet_size) where
  abbrev with_buffer : Option (ℕ → ℕ) → ℕ → ℕ → Context
  with_buffer b o r = record c { readbuffer = b; readbuffer_offset = o; readbuffer_remaining = r }

  abbrev pub Ends : ℕ → List ℕ → Context → W → Type 0
  Ends fuel out c' w =
      (r : Reading W) × (read_loop host dev size fuel out c' w ≡ some r)
      × Delivers host dev c size out w r

  loop-stop :
      (fuel : ℕ) (out : List ℕ) (c' : Context) (w : W) (r : Reading W)
      → read_round host dev size out c' w ≡ stop r
      → read_loop host dev size (suc fuel) out c' w ≡ some r
  unfolding read_loop
  loop-stop fuel out c' w r e = rw (e, read_loop)

  loop-more :
      (fuel : ℕ) (out : List ℕ) (c' : Context) (w : W) (out' : List ℕ) (c'' : Context) (w' : W)
      → read_round host dev size out c' w ≡ more out' c'' w'
      → read_loop host dev size (suc fuel) out c' w ≡ read_loop host dev size fuel out' c'' w'
  unfolding read_loop
  loop-more fuel out c' w out' c'' w' e = rw (e, read_loop)

  -- What one round does: it ends the read, or goes on with the payload of one more transfer.
  abbrev Progress : List ℕ → W → Round W → Type 0
  Progress out w (stop r) = Delivers host dev c size out w r
  Progress out w (more out' c' w') =
      (is_negative (transfer host dev c w).0 ≡ false)
      × (w' ≡ (transfer host dev c w).2)
      × (out' ≡ out ++ payload c.max_packet_size (transfer host dev c w).1)
      × (length out' < size)
      × (length out < length out')
      × ((m : ℕ → ℕ) × (c' ≡ with_buffer (some m) 2 0))

  Handed-Progress :
      (out : List ℕ) (w : W) (c' : Context) (m : ℕ → ℕ) (rd : Round W)
      → is_negative (transfer host dev c w).0 ≡ false
      → Handed size out
          (payload c.max_packet_size (transfer host dev c w).1)
          (with_buffer (some m) 0 0)
          (transfer host dev c w).2
          rd
      → Progress out w rd
  Handed-Progress out w c' m (stop r) good (same, complete, code, full) = record {
    payloads = payload c.max_packet_size (transfer host dev c w).1 ++ [];
    error = none;
    transfers = received w good (rw same finished);
    complete = complete ∙ ap (λ t. out ++ t) (sym (append-nil _));
    code = code;
    bounded = omega arith;
  }
  Handed-Progress out w c' m (more out' c'' w') good (same, e, lt, gt, (m', ctx)) =
      (good, same, e, lt, gt, (m', ctx))

  read_round-Progress :
      (out : List ℕ) (b : Option (ℕ → ℕ)) (o r : ℕ) (w : W)
      → length out < size
      → Progress out w (read_round host dev size out (with_buffer b o r) w)
  unfolding read_round
  read_round-Progress out b o r w wanted =
      let p = c.max_packet_size in
      let (ret, l, w') = transfer host dev c w in
      let m = memcpy 0 (bytes l) 0 (length l) (contents b) in
      elim (Bool-cases (is_negative ret)) [
        | inl bad ↦ rw bad (record {
          payloads = [];
          error = some ret;
          transfers = failed w bad;
          complete = refl;
          code = refl;
          bounded = omega arith;
        })
        | inr good ↦ elim (Bool-cases (ltb 2 (length l))) [
          | inl long ↦
              rw (good, long)
                (Handed-Progress out w (with_buffer b o r) m
                  (deliver size out (with_buffer (some m) 0 0) w' (strip p 2 (length l) m)) good
                  (subst
                    (λ t.
                      Handed size out t (received_in m (with_buffer b o r)) w'
                        (deliver size out (with_buffer (some m) 0 0) w' (strip p 2 (length l) m)))
                    ((strip-payload p (length l) m lo (gt_of_test _ _ long)).1
                      ∙ ap (payload p) (slice-memcpy l (contents b)))
                    (deliver-Handed size out m (with_buffer b o r) w' (strip p 2 (length l) m)
                      (strip-payload p (length l) m lo (gt_of_test _ _ long)).0 wanted)))
          | inr short ↦
              rw (good, short)
                (record {
                  payloads = payload p l ++ [];
                  error = none;
                  transfers = received w good finished;
                  complete =
                      ap (λ t. out ++ t)
                        (sym
                          (append-nil (payload p l) ∙ payload-short p l lo (le_of_test _ _ short)));
                  code = refl;
                  bounded = omega arith;
                })
        ]
      ]

  go_on :
      (fuel : ℕ) (out : List ℕ) (c' : Context) (w : W) (rd : Round W)
      → read_round host dev size out c' w ≡ rd
      → Progress out w rd
      → ((out' : List ℕ) (m : ℕ → ℕ) (w' : W)
          → length out' < size
          → length out < length out'
          → Ends fuel out' (with_buffer (some m) 2 0) w')
      → Ends (suc fuel) out c' w
  go_on fuel out c' w (stop r) e p next = (r, loop-stop fuel out c' w r e, p)
  go_on fuel out c' w (more out' c'' w') e (good, same_world, more_out, wanted, grown, (m, same))
        next =
      let (r, ends, d) = next out' m w' wanted grown in
      (
        r,
        loop-more fuel out c' w out' c'' w' e
            ∙ ap (λ t. read_loop host dev size fuel out' t w') same
            ∙ ends,
        record {
          payloads = payload c.max_packet_size (transfer host dev c w).1 ++ d.payloads;
          error = d.error;
          transfers = received w good (rw (← same_world) d.transfers);
          complete =
              d.complete
              ∙ ap (λ l. l ++ d.payloads) more_out
              ∙ append_assoc out (payload c.max_packet_size (transfer host dev c w).1) d.payloads;
          code = d.code;
          bounded = d.bounded;
        },
      )

  pub read_loop-Ends :
      (fuel : ℕ) (out : List ℕ) (b : Option (ℕ → ℕ)) (o r : ℕ) (w : W)
      → length out < size
      → size - length out < fuel
      → Ends fuel out (with_buffer b o r) w
  read_loop-Ends zero out b o r w wanted enough = absurd (omega arith)
  read_loop-Ends (suc fuel) out b o r w wanted enough =
      go_on fuel out (with_buffer b o r) w (read_round host dev size out (with_buffer b o r) w) refl
        (read_round-Progress out b o r w wanted)
        (λ out' m w' wanted' grown. read_loop-Ends fuel out' (some m) 2 0 w' wanted' (omega arith))
