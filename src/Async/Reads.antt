-- ===== src/Async/Reads.antt =====
-- An asynchronous read from its submission on.
use mathlib.Core.List.{append-nil, append_assoc}
use mathlib.Core.Option.{some-injective}
use libsgftdi.Base.{
  ℕ, ◌+◌, ◌-◌, ◌≤◌, ◌<◌, ◌≡◌, refl, ap, sym, subst, ◌∙◌, arith, List, [], ◌++◌, none, some, Option,
}
use libsgftdi.Base.{Bool-cases, inl, inr, leb}
use libsgftdi.Context.{Context}
use libsgftdi.Usb.{Host}
use libsgftdi.Read.{slice, contents}
use libsgftdi.Read.Payload.{payload, slice-append, slice_at}
use libsgftdi.Read.Deliver.{wanted_of_test}
use libsgftdi.Read.Transfer.{unread}
use libsgftdi.Async.Transfer.{AsyncUsb, Completion, Transfer, TransferControl}
use libsgftdi.Async.Read.{
  read_data_cb, read_more, read_submit, first_read, served, begun_with, left, emptied,
}
use libsgftdi.Async.Received.{handed, copied_first, IsWanting, read_data_cb-bytes}
use libsgftdi.Async.Sent.{begin-some, begin-refused}

module _ {W : Type 0} (usb : AsyncUsb W) where
  -- Completions of transfers from one state of a read to another, and the payload of what they
  -- received, in order.
  pub data Receptions
      : TransferControl → Context → List ℕ → TransferControl → Context → Type 0 where
    idle : {tc : TransferControl} {c : Context} → Receptions tc c [] tc c
    received :
        (tc : TransferControl) (c : Context) (w : W) (e : Completion) (t : Transfer) {l : List ℕ}
        {tc' : TransferControl} {c' : Context}
        → tc.completed ≡ 0
        → tc.transfer ≡ some t
        → Receptions (read_data_cb usb c e t tc w).0 (read_data_cb usb c e t tc w).1 l tc' c'
        → Receptions tc c
            (payload c.max_packet_size (slice e.received 0 e.actual_length) ++ l)
            tc'
            c'

  -- A read in flight wants more; one that is over has at most what was wanted.
  abbrev IsReading : TransferControl → Context → Type 0
  IsReading tc c = (tc.offset ≤ tc.size) × (tc.completed ≡ 0 → IsWanting tc c)

  Receptions-bytes :
      {tc : TransferControl} {c : Context} {l : List ℕ} {tc' : TransferControl} {c' : Context}
      → IsReading tc c
      → 2 < c.max_packet_size
      → Receptions tc c l tc' c'
      → (handed tc' ++ unread c' ≡ (handed tc ++ unread c) ++ l) × (tc'.offset ≤ tc.size)
  Receptions-bytes {tc} {c} h lo idle = (sym (append-nil (handed tc ++ unread c)), h.0)
  Receptions-bytes {tc' = tc'} {c' = c'} h lo (received tc c w e t {l} running there rest) =
      let p = payload c.max_packet_size (slice e.received 0 e.actual_length) in
      let wanting = h.1 running in
      let (bytes, size, packet, bounded, next) = read_data_cb-bytes usb c e t tc w wanting lo in
      let (bytes', bounded') = Receptions-bytes (bounded, next) (omega (arith, lo, packet)) rest in
      let empty : unread c ≡ [] =
        slice_at (contents c.readbuffer) {n' = 0} refl wanting.remaining in
      (
        bytes'
            ∙ ap (λ k. k ++ l) bytes
            ∙ append_assoc (handed tc) p l
            ∙ ap (λ k. k ++ (p ++ l))
                (sym (append-nil (handed tc)) ∙ ap (λ k. handed tc ++ k) (sym empty)),
        omega (arith, bounded', size),
      )

  module _ (host : Host W) (sizeof : ℕ) (c : Context) (dev : ℕ) (buf : ℕ → ℕ) (size : ℕ)
      (w : W) where
    -- What ftdi_read_data_submit hands over at once are bytes that were kept from before.
    abbrev IsBegun : TransferControl → Context → Type 0
    IsBegun tc c' = (tc.size ≡ size) × (handed tc ++ unread c' ≡ unread c) × IsReading tc c'

    served-IsBegun : size ≤ c.readbuffer_remaining → IsBegun (served c buf size) (left c size)
    served-IsBegun enough = (
      refl,
      ap (λ l. l ++ slice m (o + size) (c.readbuffer_remaining - size)) copied
          ∙ sym (slice-append m o size (c.readbuffer_remaining - size))
          ∙ slice_at m refl (omega (arith, enough)),
      (omega arith, λ e. absurd (omega (arith, e))),
    )
      where
        m : ℕ → ℕ
        m = contents c.readbuffer

        o : ℕ
        o = c.readbuffer_offset

        copied : handed (served c buf size) ≡ slice m o size
        copied = copied_first buf m o size

    begun_with-IsBegun :
        c.readbuffer_remaining < size
        → IsBegun
            (record (begun_with c buf size) { transfer = some (first_read c dev) })
            (emptied c)
    begun_with-IsBegun short = (
      refl,
      append-nil _
          ∙ copied_first buf (contents c.readbuffer) c.readbuffer_offset c.readbuffer_remaining,
      (omega (arith, short), λ e. record { wanted = short; offset = refl; remaining = refl }),
    )

    read_more-IsBegun :
        (w1 : W) (tc : TransferControl)
        → c.readbuffer_remaining < size
        → (read_more usb host c dev buf size w1).0 ≡ some tc
        → IsBegun tc (read_more usb host c dev buf size w1).1
    unfolding read_more
    read_more-IsBegun w1 tc short h = elim (Bool-cases (usb.alloc_transfer w1).0) [
      | inl granted ↦
          let e = begin-some usb (first_read c dev) (begun_with c buf size) tc w1 h in
          rw granted (subst (λ t. IsBegun t (emptied c)) (sym e) (begun_with-IsBegun short))
      | inr refused ↦
          absurd (begin-refused usb (first_read c dev) (begun_with c buf size) tc w1 refused h)
    ]

    read_submit-packet :
        (read_submit usb host sizeof c dev buf size w).1.max_packet_size ≡ c.max_packet_size
    unfolding read_submit read_more
    read_submit-packet = ground arith

    nothing : (tc : TransferControl) → Path (Option TransferControl) none (some tc) → ⊥
    nothing tc h = cc

    read_submit-IsBegun :
        (tc : TransferControl)
        → (read_submit usb host sizeof c dev buf size w).0 ≡ some tc
        → IsBegun tc (read_submit usb host sizeof c dev buf size w).1
    unfolding read_submit
    read_submit-IsBegun tc h = elim (Bool-cases (host.alloc sizeof w).0) [
      | inl granted ↦ elim (Bool-cases (leb size c.readbuffer_remaining)) [
        | inl enough ↦
            let e : served c buf size ≡ tc = some-injective _ _ (rw (granted, enough) at h) in
            rw (granted, enough)
              (subst (λ t. IsBegun t (left c size)) e (served-IsBegun (ground arith)))
        | inr short ↦
            rw (granted, short)
              (read_more-IsBegun _ tc (wanted_of_test _ _ short) (rw (granted, short) at h))
      ]
      | inr refused ↦ absurd (nothing tc (rw refused at h))
    ]

    -- With packets of more than two bytes, a read that ftdi_read_data_submit has begun, in any state
    -- that completions lead to: what has been handed to the caller, followed by what is kept for
    -- later, is what was kept before, followed by the payload of all that was received, and the
    -- caller has at most `size` bytes.
    pub read_submit-Receptions :
        2 < c.max_packet_size
        → (tc : TransferControl) → (read_submit usb host sizeof c dev buf size w).0 ≡ some tc
        → {l : List ℕ} {tc' : TransferControl} {c' : Context}
        → Receptions tc (read_submit usb host sizeof c dev buf size w).1 l tc' c'
        → (handed tc' ++ unread c' ≡ unread c ++ l) × (tc'.offset ≤ size)
    read_submit-Receptions lo tc h {l} steps =
        let (whole, first, reading) = read_submit-IsBegun tc h in
        let (bytes, bounded) =
          Receptions-bytes reading (omega (arith, lo, read_submit-packet)) steps in
        (bytes ∙ ap (λ k. k ++ l) first, omega (arith, bounded, whole))
