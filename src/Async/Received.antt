-- ===== src/Async/Received.antt =====
-- What an asynchronous read hands over.
use mathlib.Core.List.{append-nil, append_assoc}
use libsgftdi.Base.{ℕ, ◌+◌, ◌-◌, ◌≤◌, ◌<◌, ◌≡◌, refl, ap, ap₂, sym, ◌∙◌, arith, List, ◌++◌, some}
use libsgftdi.Base.{
  Bool, Bool-cases, inl, inr, ◌==◌, if◌then◌else◌, ltb, leb, ==_iff, true, false, memcpy,
}
use libsgftdi.Context.{Context}
use libsgftdi.Read.{slice, contents, strip, Stripped}
use libsgftdi.Read.Payload.{payload, slice-append, slice_at, slice_ext, length-slice}
use libsgftdi.Read.Strip.{strip-payload}
use libsgftdi.Read.Deliver.{lt_of_tests, rest-le, gt_of_test, le_of_test}
use libsgftdi.Read.Transfer.{unread}
use libsgftdi.Read.Loop.{payload-short, in_range}
use libsgftdi.Async.Transfer.{
  AsyncUsb, Completion, Transfer, TransferControl, resubmit, transfer_cancelled,
}
use libsgftdi.Async.Read.{hand_over, on_received, read_data_cb}

-- What has been handed to the caller.
abbrev pub handed : TransferControl → List ℕ
handed tc = slice tc.buf 0 tc.offset

-- Bytes copied behind others.
handed-memcpy :
    (m from : ℕ → ℕ) (start at n : ℕ)
    → slice (memcpy at from start n m) 0 (at + n) ≡ slice m 0 at ++ slice from start n
handed-memcpy m from start at n =
    slice-append (memcpy at from start n m) 0 at n
    ∙ ap₂ ◌++◌ (slice_ext (memcpy at from start n m) m 0 0 at λ k lt. before k lt) (
        slice_at (memcpy at from start n m) (omega arith) refl
        ∙ slice_ext (memcpy at from start n m) from at start n λ k lt. behind k lt)
  where
    before : (k : ℕ) → k < at → memcpy at from start n m (0 + k) ≡ m (0 + k)
    before k lt = ground arith

    behind : (k : ℕ) → k < n → memcpy at from start n m (at + k) ≡ from (start + k)
    behind k lt = ground (arith, ap from index)
      where
        index : start + (at + k - at) ≡ start + k
        index = omega arith

pub copied_first :
    (m from : ℕ → ℕ) (start n : ℕ) → slice (memcpy 0 from start n m) 0 n ≡ slice from start n
copied_first m from start n =
    slice_at (memcpy 0 from start n m) refl (omega arith) ∙ handed-memcpy m from start 0 n

-- A read in flight: more is wanted, and the read buffer is empty.
pub record IsWanting (tc : TransferControl) (c : Context) : Type 0 where
  pub wanted : tc.offset < tc.size
  pub offset : c.readbuffer_offset ≡ 0
  pub remaining : c.readbuffer_remaining ≡ 0

-- The callback returns with all that was wanted, or goes on in flight.
abbrev IsPart : Bool → TransferControl → Context → Type 0
IsPart true tc c = (tc.completed ≡ 1) × (tc.offset ≡ tc.size)
IsPart false tc c = IsWanting tc c

hand_over-bytes :
    (c : Context) (s : Stripped) (tc : TransferControl)
    → IsWanting tc c
    → 0 < s.actual_length
    → let (returns, tc', c') = hand_over c s tc in
      (handed tc' ++ unread c' ≡ handed tc ++ slice s.buffer 2 s.actual_length)
      × (tc'.size ≡ tc.size)
      × (c'.max_packet_size ≡ c.max_packet_size)
      × IsPart returns tc' c'
unfolding hand_over
hand_over-bytes c s tc h left =
    let from = c.readbuffer_offset + 2 in
    let n = s.actual_length in
    let part_size = tc.size - tc.offset in
    let two : from ≡ 2 = omega (arith, h.offset) in
    let copied =
      handed-memcpy tc.buf s.buffer from tc.offset n
      ∙ ap (λ k. handed tc ++ slice s.buffer k n) two in
    let some_left : ltb 0 s.actual_length ≡ true = ground arith in
    elim (Bool-cases (leb (tc.offset + s.actual_length) tc.size)) [
      | inl fits ↦ elim (Bool-cases (tc.offset + s.actual_length == tc.size)) [
        | inl exact ↦
            rw (some_left, fits, exact)
              (append-nil _ ∙ copied, refl, refl, (refl, (==_iff _ _).0 exact))
        | inr on ↦
            rw (some_left, fits, on)
              (
                append-nil _ ∙ copied,
                refl,
                refl,
                record { wanted = lt_of_tests _ _ fits on; offset = refl; remaining = refl },
              )
      ]
      | inr over ↦
          let full : tc.offset + part_size ≡ tc.size = omega (arith, h.wanted) in
          let short = rest-le tc.offset n tc.size over in
          let split =
            ap (λ l. l ++ slice s.buffer (from + part_size) (n - part_size))
              (handed-memcpy tc.buf s.buffer from tc.offset part_size)
            ∙ append_assoc (handed tc) (slice s.buffer from part_size)
                (slice s.buffer (from + part_size) (n - part_size))
            ∙ ap (λ l. handed tc ++ l)
                (sym (slice-append s.buffer from part_size (n - part_size))
                  ∙ slice_at s.buffer two (omega (arith, short))) in
          rw (some_left, over) (split, refl, refl, (refl, full))
    ]

on_received-bytes :
    (c : Context) (e : Completion) (tc : TransferControl)
    → IsWanting tc c
    → 2 < c.max_packet_size
    → let (returns, tc', c') = on_received c e tc in
      (handed tc' ++ unread c'
        ≡ handed tc ++ payload c.max_packet_size (slice e.received 0 e.actual_length))
      × (tc'.size ≡ tc.size)
      × (c'.max_packet_size ≡ c.max_packet_size)
      × IsPart returns tc' c'
unfolding on_received
on_received-bytes c e tc h lo =
    let n = e.actual_length in
    let p = c.max_packet_size in
    let m = memcpy 0 e.received 0 n (contents c.readbuffer) in
    let same =
      slice_ext m e.received 0 0 n
        λ k lt. in_range e.received (contents c.readbuffer) n k lt ∙ ap e.received (omega arith) in
    let two : c.readbuffer_offset + 2 ≡ 2 = omega (arith, h.offset) in
    elim (Bool-cases (ltb 2 n)) [
      | inl long ↦
          let (left, stripped) = strip-payload p n m lo (gt_of_test _ _ long) in
          let start : IsWanting tc (record c { readbuffer = some m }) = record {
            wanted = h.wanted;
            offset = h.offset;
            remaining = h.remaining;
          } in
          let (bytes, size, packet, part) =
            hand_over-bytes (record c { readbuffer = some m }) (strip p 2 n m) tc start left in
          rw (long, two)
            (bytes ∙ ap (λ l. handed tc ++ l) (stripped ∙ ap (payload p) same), size, packet, part)
      | inr short ↦
          let none_left =
            payload-short p (slice e.received 0 n) lo
              (omega (arith, length-slice e.received 0 n, le_of_test _ _ short)) in
          rw (short, h.remaining, none_left)
            (refl, refl, refl, record { wanted = h.wanted; offset = h.offset; remaining = refl })
    ]

module _ {W : Type 0} (usb : AsyncUsb W) where
  resubmit-same :
      (t : Transfer) (tc : TransferControl) (w : W)
      → let (tc', w') = resubmit usb t tc w in
        (tc'.buf ≡ tc.buf) × (tc'.offset ≡ tc.offset) × (tc'.size ≡ tc.size)
  unfolding resubmit
  resubmit-same t tc w = elim (Bool-cases (t.status == transfer_cancelled)) [
    | inl over ↦ rw over (refl, refl, refl)
    | inr on ↦ rw on (refl, refl, refl)
  ]

  -- The state after the callback, of a read from before it.
  abbrev pub IsStep : Context → Completion → TransferControl → Context → TransferControl → Type 0
  IsStep c e tc c' tc' =
      (handed tc' ++ unread c'
        ≡ handed tc ++ payload c.max_packet_size (slice e.received 0 e.actual_length))
      × (tc'.size ≡ tc.size)
      × (c'.max_packet_size ≡ c.max_packet_size)
      × (tc'.offset ≤ tc'.size)
      × (tc'.completed ≡ 0 → IsWanting tc' c')

  pub read_data_cb-bytes :
      (c : Context) (e : Completion) (t : Transfer) (tc : TransferControl) (w : W)
      → IsWanting tc c
      → 2 < c.max_packet_size
      → let (tc', c', w') = read_data_cb usb c e t tc w in IsStep c e tc c' tc'
  unfolding read_data_cb
  read_data_cb-bytes c e t tc w h lo =
      let t' = record t { status = e.status } in
      let tc1 : TransferControl = record tc { transfer = some t' } in
      let start : IsWanting tc1 c = record {
        wanted = h.wanted;
        offset = h.offset;
        remaining = h.remaining;
      } in
      let (bytes, size, packet, part) = on_received-bytes c e tc1 start lo in
      after (on_received c e tc1).0 (on_received c e tc1).1 (on_received c e tc1).2 bytes size
        packet part
    where
      after :
          (returns : Bool) (tc' : TransferControl) (c' : Context)
          → (handed tc' ++ unread c'
              ≡ handed tc ++ payload c.max_packet_size (slice e.received 0 e.actual_length))
          → tc'.size ≡ tc.size
          → c'.max_packet_size ≡ c.max_packet_size
          → IsPart returns tc' c'
          → let t' = record t { status = e.status } in
            let (again, w') = resubmit usb t' tc' w in
            let end : TransferControl × Context × W =
              (if returns then (tc', c', w) else (again, c', w')) in
            IsStep c e tc end.1 end.0
      after true tc' c' bytes size packet part =
          (bytes, size, packet, omega (arith, part.1), λ e. absurd (omega (arith, part.0, e)))
      after false tc' c' bytes size packet part =
          let t' = record t { status = e.status } in
          let (same_buf, same_offset, same_size) = resubmit-same t' tc' w in
          (
            ap₂ (λ m n. slice m 0 n ++ unread c') same_buf same_offset ∙ bytes,
            same_size ∙ size,
            packet,
            omega (arith, same_offset, same_size, part.wanted),
            λ e. record {
              wanted = omega (arith, same_offset, same_size, part.wanted);
              offset = part.offset;
              remaining = part.remaining;
            },
          )
