-- ===== src/Stream/Started.antt =====
-- What FtdiStream::start_poll leaves.
use libsgftdi.Base.{
  ℤ, pos, negsuc, minus, ◌≡◌, refl, sym, subst, is_negative, List, Bool, true, false, Option, none,
  some, if◌then◌else◌,
}
use libsgftdi.Usb.{Host}
use libsgftdi.Stream.State.{Entry, Slot, Pool, StreamHost, Outcome, done, thrown, error}
use libsgftdi.Stream.Events.{}
use libsgftdi.Stream.Setup.{process_cleanup}
use libsgftdi.Stream.Start.{started, process_init, start_poll, cleaned_up, polling}
use libsgftdi.Stream.Leads.{Returns}
use libsgftdi.Stream.Planned.{Idents}
use libsgftdi.Stream.Created.{planned}
use libsgftdi.Stream.Prepared.{started-Idents}

module _ {W : Type 0} where
  -- A stream that does not run: it has no slots and no descriptors, and is not to run.
  pub record Down (s : Pool W) : Type 0 where
    pub no_slots : s.streamstates ≡ none
    pub no_epoll : is_negative s.epoll_fd ≡ true
    pub no_usb_epoll : is_negative s.usb_epoll_fd ≡ true
    pub no_timer : is_negative s.timer_fd ≡ true
    pub halted : s.should_run ≡ false
    pub not_started : s.is_started_poll ≡ false

  -- What start_poll comes to for a list of streams.
  abbrev pub Started : List (Entry W) → Outcome (Unit {0}) × Pool W → Type 0
  Started streams (done t, s) = (s.is_started_poll ≡ true) × Idents (planned 0 streams) s
  Started streams (thrown str, s) = Down s

module _ {W : Type 0} (usb : Host W) (host : StreamHost W) where
  closed-is_negative : (fd : ℤ) → is_negative (if is_negative fd then fd else minus 1) ≡ true
  closed-is_negative (pos n) = refl
  closed-is_negative (negsuc n) = refl

  process_cleanup-Down :
      (s : Pool W) → Down (record (process_cleanup host s) { is_started_poll = false })
  unfolding process_cleanup
  process_cleanup-Down s = record {
    no_slots = refl;
    no_epoll = closed-is_negative s.epoll_fd;
    no_usb_epoll = closed-is_negative s.usb_epoll_fd;
    no_timer = closed-is_negative s.timer_fd;
    halted = refl;
    not_started = refl;
  }

  polling-Started :
      (streams : List (Entry W)) (r : Outcome (Unit {0}) × Pool W)
      → Returns (Idents (planned 0 streams)) r
      → Started streams (polling usb host (cleaned_up usb host r))
  polling-Started streams (done t, s) h = (refl, h)
  polling-Started streams (thrown str, s) h =
      process_cleanup-Down (error host "FtdiStreamStatic::process_init" (process_cleanup host s))

  process_init_fresh :
      (s : Pool W)
      → s.streamstates ≡ none
      → process_init usb host s ≡ cleaned_up usb host (started usb host s)
  unfolding process_init
  process_init_fresh s = by_slots s.streamstates
    where
      by_slots :
          (o : Option (List Slot))
          → o ≡ none
          → (elim o [
            | none ↦ cleaned_up usb host (started usb host s)
            | some l ↦ (thrown "State wasn't properly destroyed", s)
          ])
            ≡ cleaned_up usb host (started usb host s)
      by_slots none h = refl
      by_slots (some l) h = cc

  -- FtdiStream::start_poll, on a stream that has not been started, either returns with one slot for
  -- every transfer of every stream, in their order, those that read first, each with the direction and
  -- the choice about the modem status of its stream; or it throws, and leaves no slots, no descriptors
  -- of epoll or the timer, and a stream that is not to run.
  pub start_poll-Started :
      (s : Pool W)
      → s.streamstates ≡ none
      → s.is_started_thr ≡ false
      → s.is_started_poll ≡ false
      → Started s.streams (start_poll usb host s)
  unfolding start_poll
  start_poll-Started s fresh no_thread no_poll =
      by_flags s.is_started_thr s.is_started_poll no_thread no_poll (
        subst (λ r. Started s.streams (polling usb host r)) (sym (process_init_fresh s fresh))
          (polling-Started s.streams (started usb host s) (started-Idents usb host s)))
    where
      by_flags :
          (thread poll : Bool)
          → thread ≡ false
          → poll ≡ false
          → Started s.streams (polling usb host (process_init usb host s))
          → Started s.streams (
              if thread
              then (thrown "Thread version is already started", s)
              else if poll
              then (done tt, s)
              else polling usb host (process_init usb host s))
      by_flags true poll h k ends = cc
      by_flags false true h k ends = cc
      by_flags false false h k ends = ends
