-- ===== src/Stream/Stopped.antt =====
-- A stream that is to stop does not go on, whatever happens.
use libsgftdi.Base.{
  ℕ, ℤ, ◌+◌, ltb, minus, not, ◌&&◌, is_negative, is_nonzero, ◌≡◌, refl, List, [], ◌∷◌, Bool, true,
  false, Option, none, some, String, ◌==◌, Bool-cases, Option-cases, inl, inr, if◌then◌else◌, eq_ℤ,
}
use libsgftdi.Usb.{Host, Function}
use libsgftdi.Control.{set_bitmode, tcioflush}
use libsgftdi.Stream.State.{
  Entry, Slot, Pool, StreamHost, Completion, Reading, ready, again, broken, Outcome, done, thrown,
  Method, ◌>>=◌, ◌>>◌, slot_at, at_place, throw_if, modify,
}
use libsgftdi.Stream.Slot.{submit}
use libsgftdi.Stream.Callbacks.{read_callback, write_callback, complete, read_slot, write_slot}
use libsgftdi.Stream.Events.{
  for_each, places, reset_entry, resume, resume_all, report, check_timeout, event_timer,
  event_notice, on_context, reset_context, timer_read, notice_read,
}
use libsgftdi.Stream.Step.{complete_all, usb_events, dispatch}

module _ {W : Type 0} where
  -- The stream is to stop, after so many rounds.
  abbrev pub Halts : ℤ → Pool W → Type 0
  Halts k s = (s.should_run ≡ false) × (s.cancel_counter ≡ k)

  abbrev pub Keeps : {A : Type 0} → Method W A → Type 0
  Keeps m = (k : ℤ) (s : Pool W) → Halts k s → Halts k (m s).1

  bind-Keeps :
      {A B : Type 0} (m : Method W A) (f : A → Method W B)
      → Keeps m
      → ((a : A) → Keeps (f a))
      → Keeps (m >>= f)
  bind-Keeps {A} {B} m f first next k s h = after (m s).0 (m s).1 (first k s h)
    where
      after :
          (e : Outcome A) (s' : Pool W)
          → Halts k s'
          → Halts k
              (elim e as (λ x. Outcome B × Pool W) [
                | done a ↦ f a s'
                | thrown str ↦ (thrown str, s')
              ]).1
      after (done a) s' h = next a k s' h
      after (thrown str) s' h = h

  pub for_each-Keeps :
      {A : Type 0} (f : A → Method W (Unit {0})) (l : List A)
      → ((a : A) → Keeps (f a))
      → Keeps (for_each f l)
  for_each-Keeps f [] each k s h = h
  for_each-Keeps f (x ∷ l) each k s h =
      bind-Keeps (f x) (λ t. for_each f l) (each x) (λ t. for_each-Keeps f l each) k s h

  -- A choice between two states, or by what there is.
  if-Halts :
      (k : ℤ) (b : Bool) (s s' : Pool W) → Halts k s → Halts k s' → Halts k (if b then s else s')
  if-Halts k true s s' h h' = h
  if-Halts k false s s' h h' = h'

  Option-Halts :
      {A : Type 0} (k : ℤ) (o : Option A) (s : Pool W) (g : A → Pool W)
      → Halts k s
      → ((a : A) → Halts k (g a))
      → Halts k (elim o [ none ↦ s | some a ↦ g a ])
  Option-Halts k none s g h each = h
  Option-Halts k (some a) s g h each = each a

module _ {W : Type 0} (usb : Host W) (host : StreamHost W) where
  read_slot-Halts :
      (slot : Slot) (e : Completion) (k : ℤ) (s : Pool W)
      → Halts k s
      → Halts k (read_slot host slot e s)
  read_slot-Halts slot e k s h = elim (Bool-cases slot.enabled) [
    | inl on ↦ elim (Bool-cases (e.status == 3)) [
      | inl ended ↦ rw (on, ended) (refl, h.1)
      | inr other ↦ rw (on, other, h.0) (refl, h.1)
    ]
    | inr off ↦ rw off h
  ]

  write_slot-Halts :
      (slot : Slot) (e : Completion) (k : ℤ) (s : Pool W)
      → Halts k s
      → Halts k (write_slot host slot e s)
  write_slot-Halts slot e k s h = elim (Bool-cases slot.enabled) [
    | inl on ↦ elim (Bool-cases (e.status == 3)) [
      | inl ended ↦ rw (on, ended) (refl, h.1)
      | inr other ↦ rw (on, other, h.0) (refl, h.1)
    ]
    | inr off ↦ rw off h
  ]

  complete-Halts : (e : Completion) (k : ℤ) (s : Pool W) → Halts k s → Halts k (complete host e s)
  unfolding complete read_callback write_callback
  complete-Halts e k s h =
      Option-Halts k (slot_at s e.place) s
        (λ slot. if slot.is_reading then read_callback host e s else write_callback host e s) h
        (λ slot.
          if-Halts k slot.is_reading (read_callback host e s) (write_callback host e s)
            (Option-Halts k (slot_at s e.place) s (λ slot. read_slot host slot e s) h
              (λ slot. read_slot-Halts slot e k s h))
            (Option-Halts k (slot_at s e.place) s (λ slot. write_slot host slot e s) h
              (λ slot. write_slot-Halts slot e k s h)))

  resume-Keeps : (fd : ℤ) (i : ℕ) → Keeps (resume usb host fd i)
  unfolding submit
  resume-Keeps fd i k s h = elim (Option-cases (slot_at s i)) [
    | inl gone ↦ rw (gone, resume) h
    | inr (slot, there) ↦ elim (Bool-cases (eq_ℤ slot.eventfd fd)) [
      | inl mine ↦ elim (Bool-cases slot.enabled) [
        | inl on ↦ rw (there, resume, mine, on) h
        | inr off ↦ rw (there, resume, mine, off, h.0) (refl, h.1)
      ]
      | inr other ↦ rw (there, resume, other) h
    ]
  ]

  notice_read-Halts : (r : Reading) → Keeps (notice_read usb host r)
  notice_read-Halts ready k s h = rw h.0 (refl, h.1)
  notice_read-Halts again k s h = h
  notice_read-Halts broken k s h = (refl, h.1)

  on_context-Keeps : {A : Type 0} (ftdi : ℕ) (f : Function W A) → Keeps (on_context ftdi f)
  on_context-Keeps ftdi f k s h = h

  throw_if-Keeps : (test : Bool) (str : String) → Keeps (throw_if {W = W} test str)
  throw_if-Keeps true str k s h = h
  throw_if-Keeps false str k s h = h

  reset_context-Keeps : (ftdi : ℕ) → Keeps (reset_context usb host ftdi)
  reset_context-Keeps ftdi =
      bind-Keeps (on_context ftdi (set_bitmode usb 0xff 0))
        (λ r.
          throw_if (is_negative r) "Can't reset mode"
          >> (on_context ftdi (tcioflush usb) >>= λ r. throw_if (is_negative r) "Can't Purge"))
        (on_context-Keeps ftdi (set_bitmode usb 0xff 0))
        (λ r.
          bind-Keeps (throw_if (is_negative r) "Can't reset mode")
            (λ t. on_context ftdi (tcioflush usb) >>= λ r. throw_if (is_negative r) "Can't Purge")
            (throw_if-Keeps (is_negative r) "Can't reset mode")
            (λ t.
              bind-Keeps (on_context ftdi (tcioflush usb))
                (λ r. throw_if (is_negative r) "Can't Purge")
                (on_context-Keeps ftdi (tcioflush usb))
                (λ r. throw_if-Keeps (is_negative r) "Can't Purge")))

  pub reset_entry-Keeps : (entry : Entry W) → Keeps (reset_entry usb host entry)
  reset_entry-Keeps entry k s h = elim (Option-cases entry.reset_callback) [
    | inl standard ↦ rw standard (reset_context-Keeps entry.ftdi k s h)
    | inr (f, own) ↦ rw own h
  ]

  report-Keeps : (i : ℕ) → Keeps (report usb host i)
  report-Keeps i k s h = elim (Option-cases (slot_at s i)) [
    | inl gone ↦ rw (gone, report) h
    | inr (slot, there) ↦ elim (Option-cases (at_place s.streams slot.stream_id)) [
      | inl lost ↦ rw (there, report, lost) h
      | inr (entry, found) ↦ elim (Option-cases entry.counter_callback) [
        | inl silent ↦ rw (there, report, found, silent) h
        | inr (f, told) ↦ rw (there, report, found, told) h
      ]
    ]
  ]

  check_timeout-Halts : (k : ℤ) (s : Pool W) → Halts k s → Halts k (check_timeout usb host s)
  check_timeout-Halts k s h = elim (Bool-cases (s.timeout == 0)) [
    | inl never ↦ rw never h
    | inr limited ↦ elim (Bool-cases (ltb (s.ts_activity + s.timeout) (host.monotime s.world).0)) [
      | inl late ↦ rw (limited, late) (refl, h.1)
      | inr early ↦ rw (limited, early) h
    ]
  ]

  timer_read-Keeps : (r : Reading) → Keeps (timer_read usb host r)
  timer_read-Keeps ready k s h =
      bind-Keeps (for_each (report usb host) (places s)) (λ t. modify (check_timeout usb host))
        (for_each-Keeps (report usb host) (places s) report-Keeps) (λ t. check_timeout-Halts) k s h
  timer_read-Keeps again k s h = h
  timer_read-Keeps broken k s h = (refl, h.1)

  complete_all-Halts :
      (l : List Completion) (k : ℤ) (s : Pool W) → Halts k s → Halts k (complete_all usb host l s)
  complete_all-Halts [] k s h = h
  complete_all-Halts (e ∷ l) k s h =
      complete_all-Halts l k (complete host e s) (complete-Halts e k s h)

  usb_events-Keeps : Keeps (usb_events usb host)
  usb_events-Keeps k s h =
      let (err, l, w) = host.handle_events s.world in
      bind-Keeps (modify (complete_all usb host l))
        (λ t. throw_if (is_nonzero err && not (eq_ℤ err (minus 10))) "Error handling libusb events")
        (complete_all-Halts l)
        (λ t.
          throw_if-Keeps (is_nonzero err && not (eq_ℤ err (minus 10)))
            "Error handling libusb events")
        k (record s { world = w }) h

  resume_all-Keeps : (fd : ℤ) → Keeps (resume_all usb host fd)
  unfolding resume_all
  resume_all-Keeps fd k s h = for_each-Keeps (resume usb host fd) (places s) (resume-Keeps fd) k s h

  event_timer-Keeps : Keeps (event_timer usb host)
  unfolding event_timer
  event_timer-Keeps k s h =
      let (r, w) = host.read_event s.timer_fd s.world in
      timer_read-Keeps r k (record s { world = w }) h

  event_notice-Keeps : Keeps (event_notice usb host)
  unfolding event_notice
  event_notice-Keeps k s h =
      let (r, w) = host.read_event s.notice_event_fd s.world in
      notice_read-Halts r k (record s { world = w }) h

  pub dispatch-Keeps : (sock : ℤ) → Keeps (dispatch usb host sock)
  dispatch-Keeps sock k s h = elim (Bool-cases (eq_ℤ sock s.usb_epoll_fd)) [
    | inl usb_ready ↦ rw usb_ready (usb_events-Keeps k s h)
    | inr no_usb ↦ elim (Bool-cases (eq_ℤ sock s.notice_event_fd)) [
      | inl noticed ↦ rw (no_usb, noticed) (event_notice-Keeps k s h)
      | inr no_notice ↦ elim (Bool-cases (eq_ℤ sock s.timer_fd)) [
        | inl ticked ↦ rw (no_usb, no_notice, ticked) (event_timer-Keeps k s h)
        | inr of_slot ↦ rw (no_usb, no_notice, of_slot) (resume_all-Keeps sock k s h)
      ]
    ]
  ]
