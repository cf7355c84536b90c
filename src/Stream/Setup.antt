-- ===== src/Stream/Setup.antt =====
-- The checks of the constructor FtdiStream::FtdiStream, and process_cleanup, process_loop_thread and
-- FtdiStream::stop_poll, which end a stream. The loop over process_step has fuel.
use libsgftdi.Base.{
  ℕ, ℤ, pos, minus, eq_ℤ, is_negative, ltb, ◌==◌, ◌||◌, List, [], ◌∷◌, Bool, true, false, not,
  Option, none, some, if◌then◌else◌,
}
use libsgftdi.Context.{Context}
use libsgftdi.Usb.{Host}
use libsgftdi.Stream.State.{
  Callback, Entry, Pool, StreamHost, Outcome, done, thrown, Method, ◌>>=◌, ◌>>◌, pure, throw_if,
  modify, outside, cancel, error,
}
use libsgftdi.Stream.Step.{process_loop}

abbrev pub same_context : Option ℕ → Option ℕ → Bool
same_context none none = true
same_context none (some b) = false
same_context (some a) none = false
same_context (some a) (some b) = a == b

abbrev pub smaller : ℕ → ℕ → ℕ
smaller a b = if ltb b a then b else a

abbrev pub has_none : {A : Type 0} → List A → Bool
has_none [] = true
has_none (x ∷ l) = false

module _ {W : Type 0} where
  abbrev pub is_empty : Option (Callback W) → Bool
  is_empty none = true
  is_empty (some f) = false

  -- The packet sizes are those of the smallest stream.
  abbrev pub fit_sizes : Context → Pool W → Pool W
  fit_sizes c s = record s {
    read_packetsize = smaller s.read_packetsize c.max_packet_size;
    write_packetsize = smaller s.write_packetsize c.writebuffer_chunksize;
  }

  -- Does the stream read?
  abbrev pub check_reading : Entry W → Method W Bool
  check_reading stream =
      if ltb 0 stream.read_transfers
      then (do
        throw_if (is_empty stream.read_callback)
            "Read transfers is nonzero, but read callback is not set"
        throw_if (stream.read_packets_per_transfer == 0) "Read packets per transfer is zero"
        pure true)
      else pure false

  abbrev pub check_writing : Entry W → Method W Bool
  check_writing stream =
      if ltb 0 stream.write_transfers
      then (do
        throw_if (is_empty stream.write_callback)
            "Write transfers is nonzero, but write callback is not set"
        throw_if (stream.write_packets_per_transfer == 0) "Write packets per transfer is zero"
        throw_if (not (stream.write_transfers == 1)) "Only one write transfer is allowed per stream"
        pure true)
      else pure false

  abbrev pub check_stream : Option ℕ → Entry W → Method W Bool
  check_stream usb_ctx stream s =
      (do
        throw_if (not (same_context (s.contexts stream.ftdi).usb_ctx usb_ctx))
            "All streams must use the same USB context"
        modify (fit_sizes (s.contexts stream.ftdi))
        reads ← check_reading stream
        writes ← check_writing stream
        pure (reads || writes))
        s

  -- Are there transfers in any of the streams?
  unfoldable pub check_streams : Option ℕ → List (Entry W) → Bool → Method W Bool
  check_streams usb_ctx [] are_some = pure are_some
  check_streams usb_ctx (stream ∷ l) are_some =
      check_stream usb_ctx stream >>= λ more. check_streams usb_ctx l (are_some || more)

  -- The context of libusb is that of the first stream.
  abbrev pub usb_ctx_of : Pool W → Option ℕ
  usb_ctx_of s = elim s.streams [ [] ↦ none | stream ∷ l ↦ (s.contexts stream.ftdi).usb_ctx ]

module _ {W : Type 0} (host : StreamHost W) where
  -- if (fd >= 0) close (fd)
  abbrev pub close_fd : ℤ → W → W
  close_fd fd w = if is_negative fd then w else host.close fd w

  -- FtdiStreamState::FtdiStreamState
  abbrev pub state_made : Method W (Unit {0})
  state_made s =
      (do
        throw_if (has_none s.streams) "No streams were defined"
        fd ← outside host.eventfd
        throw_if (is_negative fd) "Unable to init eventfd"
        modify λ s. record s { notice_event_fd = fd })
        s

  -- FtdiStreamState::~FtdiStreamState
  abbrev pub state_gone : Pool W → Pool W
  state_gone s =
      let w1 = host.clear_notifiers s.world in
      let w2 = close_fd s.notice_event_fd w1 in
      let w3 = close_fd s.timer_fd w2 in
      let w4 = close_fd s.usb_epoll_fd w3 in
      record s { streamstates = none; world = close_fd s.epoll_fd w4 }

  abbrev pub checks : Method W (Unit {0})
  checks s =
      (do
        are_some_transfers ← check_streams (usb_ctx_of s) s.streams false
        throw_if (not are_some_transfers) "No streams have either reading or writing transfers"
        r ← outside (host.handles_timeouts (usb_ctx_of s))
        throw_if (not (eq_ℤ r (pos 1))) "Unable to handle timeouts in libusb")
        s

  -- A constructor that throws destroys its state.
  abbrev pub kept_state : Outcome (Unit {0}) × Pool W → Outcome (Unit {0}) × Pool W
  kept_state (done t, s) = (done t, s)
  kept_state (thrown str, s) = (thrown str, state_gone s)

  unfoldable pub ftdi_stream : Method W (Unit {0})
  ftdi_stream s = (state_made >>= λ t s1. kept_state (checks s1)) s

  -- ~FtdiStreamStaticState frees the transfers.
  unfoldable pub process_cleanup : Pool W → Pool W
  process_cleanup s =
      let stopped = cancel host s in
      let w1 = host.clear_notifiers stopped.world in
      let w2 = close_fd s.timer_fd w1 in
      let w3 = close_fd s.usb_epoll_fd w2 in
      record stopped {
        timer_fd = if is_negative s.timer_fd then s.timer_fd else minus 1;
        usb_epoll_fd = if is_negative s.usb_epoll_fd then s.usb_epoll_fd else minus 1;
        epoll_fd = if is_negative s.epoll_fd then s.epoll_fd else minus 1;
        streamstates = none;
        world = close_fd s.epoll_fd w3;
      }

module _ {W : Type 0} (usb : Host W) (host : StreamHost W) where
  abbrev guarded : ℕ → Pool W → Option (Outcome (Unit {0}) × Pool W)
  guarded fuel s = elim s.streamstates [
    | none ↦ some (thrown "State wasn't properly initialized", s)
    | some l ↦ process_loop usb host fuel s
  ]

  abbrev cleaned : Outcome (Unit {0}) × Pool W → Pool W
  cleaned (done t, s) = process_cleanup host s
  cleaned (thrown str, s) = process_cleanup host (error host "FtdiStreamStatic::process_loop" s)

  unfoldable pub process_loop_thread : ℕ → Pool W → Option (Pool W)
  process_loop_thread fuel s = elim (guarded fuel s) [ none ↦ none | some r ↦ some (cleaned r) ]

  -- An exception of the loop leaves stop_poll.
  abbrev stopped_poll : Outcome (Unit {0}) × Pool W → Outcome (Unit {0}) × Pool W
  stopped_poll (done t, s) = (done tt, record (process_cleanup host s) { is_started_poll = false })
  stopped_poll (thrown str, s) = (thrown str, s)

  unfoldable pub stop_poll : ℕ → Pool W → Option (Outcome (Unit {0}) × Pool W)
  stop_poll fuel s =
      if s.is_started_poll
      then elim (process_loop usb host fuel
          (record s { should_cancel = true; world = host.notice s.world })) [
            | none ↦ none
            | some r ↦ some (stopped_poll r)
          ]
      else some (done tt, s)
