-- ===== src/Stream/Events.antt =====
-- FtdiStreamStatic::event_timer, event_notice and process_reset_stream_entry.
use libsgftdi.Base.{
  ℕ, ℤ, ◌+◌, ltb, ltb_ℤ, map, ◌==◌, eq_ℤ, is_negative, List, [], ◌∷◌, Bool, true, false, none, some,
  if◌then◌else◌,
}
use libsgftdi.Usb.{Host, Function}
use libsgftdi.Control.{set_bitmode, tcioflush}
use libsgftdi.Stream.State.{
  Entry, Slot, Pool, StreamHost, Reading, ready, again, broken, done, Method, ◌>>=◌, ◌>>◌, pure,
  throw, throw_if, modify, outside, at_place, slot_at, put_slot, slots, error,
}
use libsgftdi.Stream.Slot.{submit, cancel_slot}

-- A multimap puts a key behind those that are not larger.
abbrev pub emplace : ℤ → ℕ → List (ℤ × ℕ) → List (ℤ × ℕ)
emplace fd i [] = (fd, i) ∷ []
emplace fd i (x ∷ l) =
    let rest = emplace fd i l in if ltb_ℤ fd x.0 then (fd, i) ∷ x ∷ l else x ∷ rest

abbrev pub keyed : ℕ → List Slot → List (ℤ × ℕ) → List (ℤ × ℕ)
keyed i [] l = l
keyed i (slot ∷ rest) l = keyed (i + 1) rest (emplace slot.eventfd i l)

module _ {W : Type 0} where
  -- For every element of a list.
  abbrev pub for_each : {A : Type 0} → (A → Method W (Unit {0})) → List A → Method W (Unit {0})
  for_each f [] = pure tt
  for_each f (x ∷ l) = f x >> for_each f l

  -- The places of the slots, in the order of the multimap.
  abbrev pub places : Pool W → List ℕ
  places s = map (λ x. x.1) (keyed 0 (slots s.streamstates) [])

  -- A function of the library on the context at an address.
  abbrev pub on_context : {A : Type 0} → ℕ → Function W A → Method W A
  on_context ftdi f s =
      let (a, s') = f (record { ftdi = some (s.contexts ftdi); world = s.world }) in
      (
        done a,
        record s {
          contexts = λ k.
              if k == ftdi
              then (elim s'.ftdi [ none ↦ s.contexts k | some c ↦ c ])
              else s.contexts k;
          world = s'.world;
        },
      )

module _ {W : Type 0} (usb : Host W) (host : StreamHost W) where
  abbrev pub reset_context : ℕ → Method W (Unit {0})
  reset_context ftdi = do
    r ← on_context ftdi (set_bitmode usb 0xff 0)
    throw_if (is_negative r) "Can't reset mode"
    r ← on_context ftdi (tcioflush usb)
    throw_if (is_negative r) "Can't Purge"

  abbrev pub reset_entry : Entry W → Method W (Unit {0})
  reset_entry entry = elim entry.reset_callback [
    | none ↦ reset_context entry.ftdi
    | some f ↦ outside λ w. (tt, f entry.ftdi w)
  ]

  -- `streams.at`, which throws out of range
  abbrev pub reset_stream_at : ℕ → Method W (Unit {0})
  reset_stream_at stream_id s = elim (at_place s.streams stream_id) [
    | none ↦ throw "std::out_of_range" s
    | some entry ↦ reset_entry entry s
  ]

  unfoldable pub process_reset_stream_entry : Bool → Method W (Unit {0})
  process_reset_stream_entry true s = for_each reset_entry s.streams s
  process_reset_stream_entry false s =
      (for_each reset_stream_at s.list_reset >> modify (λ s. record s { list_reset = [] })) s

  -- A slot that was disabled is enabled and submitted.
  abbrev pub resume : ℤ → ℕ → Method W (Unit {0})
  resume fd i s = elim (slot_at s i) [
    | none ↦ pure tt s
    | some slot ↦
        if eq_ℤ slot.eventfd fd
        then if slot.enabled
          then pure tt s
          else (modify (put_slot i (record slot { enabled = true }))
                >> submit host i (record slot { enabled = true }))
              s
        else pure tt s
  ]

  unfoldable pub resume_all : ℤ → Method W (Unit {0})
  resume_all fd s = for_each (resume fd) (places s) s

  abbrev stop_slot : ℤ → ℕ → Method W (Unit {0})
  stop_slot fd i s = elim (slot_at s i) [
    | none ↦ pure tt s
    | some slot ↦ if eq_ℤ slot.eventfd fd then modify (cancel_slot host i slot) s else pure tt s
  ]

  unfoldable pub stop_all : ℤ → Method W (Unit {0})
  stop_all fd s = for_each (stop_slot fd) (places s) s

  -- One round of the counters: they are reported and start again.
  abbrev pub report : ℕ → Method W (Unit {0})
  report i s = elim (slot_at s i) [
    | none ↦ pure tt s
    | some slot ↦ elim (at_place s.streams slot.stream_id) [
      | none ↦ throw "std::out_of_range" s
      | some entry ↦
          let zeroed = put_slot i (record slot { counter_callbacks = 0; counter_bytes = 0 }) s in
          elim entry.counter_callback [
            | none ↦ pure tt zeroed
            | some f ↦ pure tt (record zeroed {
              world =
                  f slot.is_reading slot.transfer_id slot.counter_callbacks slot.counter_bytes
                    s.world;
            })
          ]
    ]
  ]

  -- The end of the stream after so many seconds without a transfer.
  abbrev pub check_timeout : Pool W → Pool W
  check_timeout s =
      let (now, w) = host.monotime s.world in
      let at_now = record s { ts_now = now; world = w } in
      if s.timeout == 0
      then s
      else if ltb (s.ts_activity + s.timeout) now
      then error host "Timeout reached" at_now
      else at_now

  abbrev pub timer_read : Reading → Method W (Unit {0})
  timer_read again s = pure tt s
  timer_read broken s = modify (error host "Error reading from timer_fd") s
  timer_read ready s = (for_each report (places s) >> modify check_timeout) s

  unfoldable pub event_timer : Method W (Unit {0})
  event_timer s = (outside (host.read_event s.timer_fd) >>= timer_read) s

  abbrev pub lists_done : Method W (Unit {0})
  lists_done s =
      (do
        for_each resume_all s.list_enable
        modify λ s. record s { list_enable = [] }
        for_each stop_all s.list_disable
        modify λ s. record s { list_disable = [] })
        s

  abbrev pub notice_read : Reading → Method W (Unit {0})
  notice_read again s = pure tt s
  notice_read broken s = modify (error host "Error reading from event_fd") s
  notice_read ready s =
      if s.should_run
      then if s.should_cancel
        then modify (λ s. record s { should_run = false }) s
        else (process_reset_stream_entry false >> lists_done) s
      else pure tt s

  unfoldable pub event_notice : Method W (Unit {0})
  event_notice s = (outside (host.read_event s.notice_event_fd) >>= notice_read) s
