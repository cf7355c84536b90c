-- ===== src/Stream/Ends.antt =====
-- The loop over process_step ends once the stream is to stop.
use libsgftdi.Base.{
  ℕ, ℤ, zero, suc, pos, minus, ◌≡◌, ◌≢◌, refl, ap, subst, List, [], ◌∷◌, Bool, true, false, not,
  ◌||◌, is_negative, Option, none, some, Bool-cases, Option-cases, inl, inr, if◌then◌else◌,
}
use libsgftdi.Usb.{Host}
use libsgftdi.Stream.State.{Slot, Pool, StreamHost, Outcome, done, thrown, slot_at}
use libsgftdi.Stream.Slot.{cancel_slot}
use libsgftdi.Stream.Events.{for_each, places, reset_entry, process_reset_stream_entry}
use libsgftdi.Stream.Step.{
  dispatch, reset_quietly, cancel_enabled, ending, decremented, handled, waited, process_step,
  process_loop,
}
use libsgftdi.Stream.Stopped.{Halts, for_each-Keeps, reset_entry-Keeps, dispatch-Keeps}

module _ {W : Type 0} (usb : Host W) (host : StreamHost W) where
  cancel_slot-Halts :
      (i : ℕ) (slot : Slot) (k : ℤ) (s : Pool W) → Halts k s → Halts k (cancel_slot host i slot s)
  unfolding cancel_slot
  cancel_slot-Halts i slot k s h = elim (Bool-cases slot.enabled) [
    | inl on ↦ rw on h
    | inr off ↦ rw off h
  ]

  cancel_enabled-Halts :
      (l : List ℕ) (k : ℤ) (s : Pool W) → Halts k s → Halts k (cancel_enabled usb host l s).1
  cancel_enabled-Halts [] k s h = h
  cancel_enabled-Halts (i ∷ l) k s h = elim (Option-cases (slot_at s i)) [
    | inl gone ↦ rw (gone, cancel_enabled) (cancel_enabled-Halts l k s h)
    | inr (slot, there) ↦
        rw (there, cancel_enabled)
          (cancel_enabled-Halts l k (cancel_slot host i slot s) (cancel_slot-Halts i slot k s h))
  ]

  reset_quietly-Halts : (k : ℤ) (s : Pool W) → Halts k s → Halts k (reset_quietly usb host s)
  unfolding process_reset_stream_entry
  reset_quietly-Halts k s h =
      for_each-Keeps (reset_entry usb host) s.streams (reset_entry-Keeps usb host) k s h

  -- A round of a stream that is to stop ends it, or leaves it with one round less.
  abbrev Round : ℤ → Outcome Bool × Pool W → Type 0
  Round k (done true, s) = (is_negative (decremented k) ≡ false) × Halts (decremented k) s
  Round k (done false, s) = s.should_run ≡ false
  Round k (thrown str, s) = s.should_run ≡ false

  ending-Round :
      (k : ℤ) (s : Pool W) → Halts k s → Round k (done (ending usb host s).0, (ending usb host s).1)
  ending-Round k s h =
      by_result (cancel_enabled usb host (places s) (reset_quietly usb host s)).0
        (cancel_enabled usb host (places s) (reset_quietly usb host s)).1
        (cancel_enabled-Halts (places s) k (reset_quietly usb host s) (reset_quietly-Halts k s h))
    where
      by_result :
          (all : Bool) (s1 : Pool W)
          → Halts k s1
          → let counter = decremented s1.cancel_counter in
            Round k
              (done (not (is_negative counter || all)), record s1 { cancel_counter = counter })
      by_result true s1 h1 = elim (Bool-cases (is_negative (decremented s1.cancel_counter))) [
        | inl used_up ↦ rw used_up h1.0
        | inr some_left ↦ rw some_left h1.0
      ]
      by_result false s1 h1 = elim (Bool-cases (is_negative (decremented s1.cancel_counter))) [
        | inl used_up ↦ rw used_up h1.0
        | inr some_left ↦ rw some_left (
          subst (λ c. is_negative (decremented c) ≡ false) h1.1 some_left,
          (h1.0, ap decremented h1.1),
        )
      ]

  handled-Round :
      (k : ℤ) (o : Outcome (Unit {0})) (s : Pool W) → Halts k s → Round k (handled usb host (o, s))
  handled-Round k (done t) s h = choice s.should_run h.0
    where
      choice :
          (b : Bool)
          → b ≡ false
          → let (go, s') = (if b then (true, s) else ending usb host s) in Round k (done go, s')
      choice true off = cc
      choice false off = ending-Round k s h
  handled-Round k (thrown str) s h = refl

  waited-Round :
      (k : ℤ) (ready : Option (List ℤ)) (s : Pool W)
      → ready ≢ some []
      → Halts k s
      → Round k (waited usb host ready s)
  waited-Round k none s busy h = refl
  waited-Round k (some []) s busy h = absurd (busy refl)
  waited-Round k (some (sock ∷ socks)) s busy h =
      let (o, s') = for_each (dispatch usb host) (sock ∷ socks) s in
      handled-Round k o s'
        (for_each-Keeps (dispatch usb host) (sock ∷ socks) (dispatch-Keeps usb host) k s h)

  module _ (waits : (w : W) → (host.epoll_wait (minus 1) w).0 ≢ some []) where
    process_step-Round :
        (k : ℤ) (s : Pool W) → Halts k s → Round k (process_step usb host (minus 1) s)
    unfolding process_step
    process_step-Round k s h = elim (Option-cases s.streamstates) [
      | inl gone ↦ rw gone h.0
      | inr (l, there) ↦ rw there (
          waited-Round k (host.epoll_wait (minus 1) s.world).0
            (record s { streamstates = some l; world = (host.epoll_wait (minus 1) s.world).1 })
            (waits s.world) h)
    ]

    -- The rest of the loop after a round.
    abbrev looped : ℕ → Outcome Bool × Pool W → Option (Outcome (Unit {0}) × Pool W)
    looped fuel (o, s') = elim o [
      | done go ↦ elim go [ true ↦ process_loop usb host fuel s' | false ↦ some (done tt, s') ]
      | thrown str ↦ some (thrown str, s')
    ]

    abbrev Ends : ℕ → Outcome Bool × Pool W → Type 0
    Ends fuel r =
        (o : Outcome (Unit {0})) × (s' : Pool W) × (looped fuel r ≡ some (o, s'))
        × (s'.should_run ≡ false)

    -- With an epoll_wait that, without a timeout, comes back only for an event or an error: if a
    -- stream is to stop and has `n` rounds left until its forced exit, the loop over process_step, that
    -- of the thread and of stop_poll, ends within `n + 1` rounds, whatever the events, the callbacks and
    -- libusb do in them; and the stream is then still to stop.
    pub process_loop-ends :
        (n : ℕ) (s : Pool W)
        → s.should_run ≡ false
        → s.cancel_counter ≡ pos n
        → (o : Outcome (Unit {0})) × (s' : Pool W) × (process_loop usb host (suc n) s
            ≡ some (o, s'))
          × (s'.should_run ≡ false)
    unfolding process_loop
    process_loop-ends zero s off rounds =
        after (process_step usb host (minus 1) s) (process_step-Round (pos 0) s (off, rounds))
      where
        after : (r : Outcome Bool × Pool W) → Round (pos 0) r → Ends zero r
        after (done true, s') (left, h) = cc
        after (done false, s') off = (done tt, s', refl, off)
        after (thrown str, s') off = (thrown str, s', refl, off)
    process_loop-ends (suc n) s off rounds =
        after (process_step usb host (minus 1) s) (process_step-Round (pos (suc n)) s (off, rounds))
          (process_loop-ends n)
      where
        after :
            (r : Outcome Bool × Pool W)
            → Round (pos (suc n)) r
            → ((s' : Pool W)
                → s'.should_run ≡ false
                → s'.cancel_counter ≡ pos n
                → (o : Outcome (Unit {0})) × (s'' : Pool W) × (process_loop usb host (suc n) s'
                    ≡ some (o, s''))
                  × (s''.should_run ≡ false))
            → Ends (suc n) r
        after (done true, s') (left, (off, rounds)) next = next s' off rounds
        after (done false, s') off next = (done tt, s', refl, off)
        after (thrown str, s') off next = (thrown str, s', refl, off)
