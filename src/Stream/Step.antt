-- ===== src/Stream/Step.antt =====
-- FtdiStreamStatic::process_step, and the loop over it of process_loop_thread and stop_poll.
use libsgftdi.Base.{
  ℕ, ℤ, zero, suc, pos, negsuc, minus, ◌&&◌, ◌||◌, eq_ℤ, is_nonzero, is_negative, List, [], ◌∷◌,
  Bool, true, false, not, Option, none, some, if◌then◌else◌,
}
use libsgftdi.Usb.{Host}
use libsgftdi.Stream.State.{
  Pool, StreamHost, Completion, Outcome, done, thrown, Method, ◌>>◌, throw_if, modify, slot_at,
  cancel,
}
use libsgftdi.Stream.Slot.{cancel_slot}
use libsgftdi.Stream.Callbacks.{complete}
use libsgftdi.Stream.Events.{
  for_each, places, process_reset_stream_entry, resume_all, event_timer, event_notice,
}

-- --counter
abbrev pub decremented : ℤ → ℤ
decremented (pos zero) = negsuc 0
decremented (pos (suc n)) = pos n
decremented (negsuc n) = negsuc (suc n)

module _ {W : Type 0} (usb : Host W) (host : StreamHost W) where
  abbrev pub complete_all : List Completion → Pool W → Pool W
  complete_all [] s = s
  complete_all (e ∷ l) s = complete_all l (complete host e s)

  -- libusb_handle_events_timeout, which calls the callbacks; LIBUSB_ERROR_INTERRUPTED is -10.
  abbrev pub usb_events : Method W (Unit {0})
  usb_events s =
      let (err, l, w) = host.handle_events s.world in
      (modify (complete_all l)
          >> throw_if (is_nonzero err && not (eq_ℤ err (minus 10))) "Error handling libusb events")
        (record s { world = w })

  abbrev pub dispatch : ℤ → Method W (Unit {0})
  dispatch sock s =
      if eq_ℤ sock s.usb_epoll_fd
      then usb_events s
      else if eq_ℤ sock s.notice_event_fd
      then event_notice usb host s
      else if eq_ℤ sock s.timer_fd
      then event_timer usb host s
      else resume_all usb host sock s

  -- Exceptions of the reset are ignored.
  abbrev pub reset_quietly : Pool W → Pool W
  reset_quietly s = (process_reset_stream_entry usb host true s).1

  -- Every slot that is enabled is cancelled; is there none?
  abbrev pub cancel_enabled : List ℕ → Pool W → Bool × Pool W
  cancel_enabled [] s = (true, s)
  cancel_enabled (i ∷ l) s = elim (slot_at s i) [
    | none ↦ cancel_enabled l s
    | some slot ↦
        let (rest, s') = cancel_enabled l (cancel_slot host i slot s) in
        (not slot.enabled && rest, s')
  ]

  -- Is the stream to go on?
  abbrev pub ending : Pool W → Bool × Pool W
  ending s =
      let (are_all_disabled, s1) = cancel_enabled (places s) (reset_quietly s) in
      let counter = decremented s1.cancel_counter in
      (not (is_negative counter || are_all_disabled), record s1 { cancel_counter = counter })

  abbrev pub stop_or_go : Pool W → Bool × Pool W
  stop_or_go s = if s.should_run then (true, s) else ending s

  abbrev pub handled : Outcome (Unit {0}) × Pool W → Outcome Bool × Pool W
  handled (done t, s) = let (go, s') = stop_or_go s in (done go, s')
  handled (thrown str, s) = (thrown str, cancel host s)

  abbrev pub waited : Option (List ℤ) → Pool W → Outcome Bool × Pool W
  waited none s = (done false, cancel host s)
  waited (some []) s = (done true, s)
  waited (some (sock ∷ socks)) s = handled (for_each dispatch (sock ∷ socks) s)

  unfoldable pub process_step : ℤ → Method W Bool
  process_step timeout s = elim s.streamstates [
    | none ↦ (done false, s)
    | some l ↦
        let (ready, w) = host.epoll_wait timeout s.world in waited ready (record s { world = w })
  ]

  -- while (process_step (state)); with fuel for its rounds: `none` if the fuel runs out.
  unfoldable pub process_loop : ℕ → Pool W → Option (Outcome (Unit {0}) × Pool W)
  process_loop zero s = none
  process_loop (suc fuel) s =
      let (e, s') = process_step (minus 1) s in
      elim e [
        | done go ↦ elim go [ true ↦ process_loop fuel s' | false ↦ some (done tt, s') ]
        | thrown str ↦ some (thrown str, s')
      ]
