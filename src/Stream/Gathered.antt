-- ===== src/Stream/Gathered.antt =====
-- What a read stream hands to its user.
use libsgftdi.Base.{
  ℕ, ℤ, zero, suc, ◌+◌, pos, ◌≤◌, ◌<◌, ◌≡◌, refl, ap, sym, subst, ◌∙◌, arith, ltb, is_nonzero,
}
use libsgftdi.Base.{
  List, [], ◌∷◌, ◌++◌, length, take, drop, set, drop-all, length-drop, length-append, true, false,
  Option, none, some, Bool-cases, inl, inr,
}
use mathlib.Core.List.{append-nil, append_assoc}
use libsgftdi.Read.Payload.{payload, payload_of}
use libsgftdi.Stream.State.{
  CallbackType, Callback, Slot, Pool, StreamHost, Completion, Outcome, done, thrown, at_place,
  slot_at, put_slot, slots,
}
use libsgftdi.Stream.Callbacks.{
  hand_packet, hand_packets, read_callback, reader_of, received, hand_received, caught, counted,
  resubmit_read, read_again, read_slot,
}

-- A read callback that gathers the bytes that it is given.
pub record Gathers {W : Type 0} (log : W → List ℕ) (f : Callback W) : Type 0 where
  pub appends :
      (part : List ℕ) (n : ℤ) (w : W) → log (f CallbackType.read_buffer part n w).2 ≡ log w ++ part

-- A libusb that accepts every transfer, and touches nothing of what was gathered.
pub record IsAccepting {W : Type 0} (log : W → List ℕ) (host : StreamHost W) : Type 0 where
  pub accepts :
      (i : ℕ) (n : ℤ) (b : List ℕ) (w : W)
      → (is_nonzero (host.submit_transfer i n b w).0 ≡ false)
        × (log (host.submit_transfer i n b w).1 ≡ log w)

-- A slot that a completed transfer has left.
abbrev pub Continues : {W : Type 0} → (W → List ℕ) → Slot → List ℕ → Pool W → Pool W → ℕ → Type 0
Continues log slot bytes s s' i =
    (log s'.world ≡ log s.world ++ bytes)
    × ((slot' : Slot) × (slot_at s' i ≡ some slot')
        × (slot'.enabled ≡ true)
        × (slot'.counter_bytes ≡ slot.counter_bytes + length bytes))

pub at_place-set {ℓ} :
    {A : Type ℓ} (l : List A) (i : ℕ) (x y : A)
    → at_place l i ≡ some x
    → at_place (set l i y) i ≡ some y
at_place-set [] i x y h = cc
at_place-set (z ∷ l) zero x y h = refl
at_place-set (z ∷ l) (suc i) x y h = at_place-set l i x y h

pub slot_at-put_slot :
    {W : Type 0} (s : Pool W) (i : ℕ) (x y : Slot)
    → slot_at s i ≡ some x
    → slot_at (put_slot i y s) i ≡ some y
slot_at-put_slot {W} s i x y = at_list s.streamstates
  where
    at_list :
        (o : Option (List Slot))
        → at_place (slots o) i ≡ some x
        → at_place (slots (elim o [ none ↦ none | some l ↦ some (set l i y) ])) i ≡ some y
    at_list none h = cc
    at_list (some l) h = at_place-set l i x y h

short-payload : (p : ℕ) (l : List ℕ) → 0 < p → length l ≤ 2 → payload p l ≡ []
unfolding payload
short-payload zero l h few = absurd (omega arith)
short-payload (suc p) [] h few = refl
short-payload (suc zero) (x ∷ []) h few = refl
short-payload (suc (suc p)) (x ∷ []) h few = refl
short-payload (suc zero) (x ∷ y ∷ []) h few = refl
short-payload (suc (suc zero)) (x ∷ y ∷ []) h few = refl
short-payload (suc (suc (suc p))) (x ∷ y ∷ []) h few = refl
short-payload (suc p) (x ∷ y ∷ z ∷ l) h few = absurd (omega arith)

module _ {W : Type 0} (log : W → List ℕ) (f : Callback W) (gathers : Gathers log f) where
  hand_packet-drop :
      (part : List ℕ) (count : ℕ) (w : W)
      → let (count', w') = hand_packet f false part (count, w) in
        (count' ≡ count + length (drop 2 part)) × (log w' ≡ log w ++ drop 2 part)
  hand_packet-drop part count w = elim (Bool-cases (ltb 2 (length part))) [
    | inl long ↦ rw long (
      omega (arith, length-drop 2 part),
      gathers.appends (drop 2 part) (pos (length (drop 2 part))) w,
    )
    | inr short ↦
        let none_left : drop 2 part ≡ [] = drop-all 2 part (ground (arith, short)) in
        rw (short, none_left) (omega arith, sym (append-nil (log w)))
  ]

  hand_packets-payload_of :
      (p fuel : ℕ) (l : List ℕ) (count : ℕ) (w : W)
      → let (count', w') = hand_packets f false p fuel l (count, w) in
        (count' ≡ count + length (payload_of p fuel l)) × (log w' ≡ log w ++ payload_of p fuel l)
  unfolding hand_packets payload_of
  hand_packets-payload_of p zero l count w = (omega arith, sym (append-nil (log w)))
  hand_packets-payload_of p (suc fuel) [] count w = (omega arith, sym (append-nil (log w)))
  hand_packets-payload_of p (suc fuel) (x ∷ l) count w =
      let part = take p (x ∷ l) in
      let st = hand_packet f false part (count, w) in
      let rest = payload_of p fuel (drop p (x ∷ l)) in
      let (n1, l1) = hand_packet-drop part count w in
      let (n2, l2) = hand_packets-payload_of p fuel (drop p (x ∷ l)) st.0 st.1 in
      (
        omega (arith, n1, n2, length-append (drop 2 part) rest),
        l2 ∙ ap (λ k. k ++ rest) l1 ∙ append_assoc (log w) (drop 2 part) rest,
      )

  module _ (host : StreamHost W) (accepting : IsAccepting log host) where
    module _ (e : Completion) (s : Pool W) (slot : Slot) where
      abbrev taken : Pool W
      taken = received e.place (counted slot) e.received f (put_slot e.place (counted slot) s)

      abbrev submitted : Pool W
      submitted = record taken {
        world = (host.submit_transfer e.place slot.length slot.buffer taken.world).1;
      }

      at_the_slot :
          slot_at s e.place ≡ some slot
          → slot.enabled ≡ true
          → s.should_run ≡ true
          → e.status ≡ 0
          → read_callback host e s
            ≡ caught host e.place "read callback"
                (read_again host e.place (counted slot) e (put_slot e.place (counted slot) s))
      unfolding read_callback
      at_the_slot at_slot on runs good =
          ap (λ o. elim o [ none ↦ s | some slot ↦ read_slot host slot e s ]) at_slot
          ∙ rw (on, runs, good, read_slot) refl

      handed :
          reader_of s slot.stream_id ≡ some f
          → hand_received e.place (counted slot) e.received (put_slot e.place (counted slot) s)
            ≡ (done tt, taken)
      handed reads = rw (reads, hand_received) refl

      -- The rest of the callback, after the packets are handed over.
      abbrev then_again : Outcome (Unit {0}) × Pool W → Pool W
      then_again (o, s') = caught host e.place "read callback" (elim o [
        | done t ↦ resubmit_read host e.place (counted slot) s'
        | thrown str ↦ (thrown str, s')
      ])

      resubmit-done : resubmit_read host e.place (counted slot) taken ≡ (done tt, submitted)
      resubmit-done = rw (accepting.accepts e.place slot.length slot.buffer taken.world).0 refl

      goes_on :
          reader_of s slot.stream_id ≡ some f
          → e.status ≡ 0
          → caught host e.place "read callback"
              (read_again host e.place (counted slot) e (put_slot e.place (counted slot) s))
            ≡ submitted
      goes_on reads good =
          rw good
            (ap then_again (handed reads) ∙ ap (caught host e.place "read callback") resubmit-done)

      taken-Continues :
          slot_at s e.place ≡ some slot
          → slot.enabled ≡ true
          → slot.is_modem_status ≡ false
          → 0 < s.read_packetsize
          → Continues log slot (payload s.read_packetsize e.received) s taken e.place
      taken-Continues at_slot on plain packets =
          let once = slot_at-put_slot s e.place slot (counted slot) at_slot in
          elim (Bool-cases (ltb 2 (length e.received))) [
            | inl long ↦
                let (count, gathered) =
                  hand_packets-payload_of s.read_packetsize (length e.received) e.received
                    slot.counter_bytes s.world in
                let st =
                  hand_packets f slot.is_modem_status s.read_packetsize (length e.received)
                    e.received (slot.counter_bytes, s.world) in
                let slot' : Slot = record (counted slot) { counter_bytes = st.0 } in
                let s1 : Pool W = record (put_slot e.place (counted slot) s) {
                  ts_activity = s.ts_now;
                  world = st.1;
                } in
                unfold payload in
                rw long (
                  rw plain gathered,
                  (
                    slot',
                    slot_at-put_slot s1 e.place (counted slot) slot' once,
                    on,
                    rw plain count,
                  ),
                )
            | inr short ↦
                let nothing =
                  short-payload s.read_packetsize e.received packets (ground (arith, short)) in
                rw (short, plain, nothing)
                  (
                    sym (append-nil (log s.world)),
                    (
                      counted slot,
                      slot_at-put_slot (put_slot e.place (counted slot) s) e.place (counted slot)
                          (counted slot) once,
                      on,
                      omega arith,
                    ),
                  )
          ]

    -- In a stream without modem status, whose read callback gathers what it is given: when a transfer
    -- of an enabled slot has completed, the bytes gathered are the payload of its packets, in order and
    -- without their status bytes, as many are counted, and the slot goes on.
    pub read_callback-payload :
        (e : Completion) (s : Pool W) (slot : Slot)
        → slot_at s e.place ≡ some slot
        → slot.enabled ≡ true
        → slot.is_modem_status ≡ false
        → reader_of s slot.stream_id ≡ some f
        → s.should_run ≡ true
        → e.status ≡ 0
        → 0 < s.read_packetsize
        → Continues log slot
            (payload s.read_packetsize e.received)
            s
            (read_callback host e s)
            e.place
    read_callback-payload e s slot at_slot on plain reads runs good packets =
        let (gathered, (slot', at', on', count)) =
          taken-Continues e s slot at_slot on plain packets in
        let (ok, same) = accepting.accepts e.place slot.length slot.buffer (taken e s slot).world in
        subst (λ s'. Continues log slot (payload s.read_packetsize e.received) s s' e.place)
          (sym (at_the_slot e s slot at_slot on runs good ∙ goes_on e s slot reads good))
          (same ∙ gathered, (slot', at', on', count))
