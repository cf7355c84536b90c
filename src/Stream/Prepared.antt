-- ===== src/Stream/Prepared.antt =====
-- What process_init sets up before it makes the slots leaves the slots alone.
use libsgftdi.Base.{
  ℕ, ℤ, ◌≡◌, refl, ◌∙◌, is_negative, is_nonzero, List, [], ◌∷◌, Bool, true, Option, none, some,
  String,
}
use libsgftdi.Usb.{Host}
use libsgftdi.Control.{set_bitmode, tcioflush}
use libsgftdi.Stream.State.{Entry, Pool, StreamHost, Method, ◌>>=◌, throw_if, modify, outside}
use libsgftdi.Stream.Events.{
  process_reset_stream_entry, for_each, reset_entry, on_context, reset_context,
}
use libsgftdi.Stream.Start.{
  add_to_epoll, add_to_usb_epoll, create_streams, restarted, make_timer, add_pollfds, use_pollfds,
  make_epolls, prepare, started,
}
use libsgftdi.Stream.Leads.{Returns, Leads, bind-Leads, throw_if-Leads}
use libsgftdi.Stream.Planned.{Ident, Idents, added-Same, add_to_epoll-Same}
use libsgftdi.Stream.Created.{planned, create_streams-Idents}

module _ {W : Type 0} where
  -- What keeps the slots.
  record Keeps {A : Type 0} (m : Method W A) : Type 0 where
    keeps : (d : List Ident) → Leads (Idents d) m (Idents d)

  bind-Keeps :
      {A B : Type 0} (m : Method W A) (f : A → Method W B)
      → Keeps m
      → ((a : A) → Keeps (f a))
      → Keeps (m >>= f)
  bind-Keeps m f first next = record {
    keeps = λ d.
        bind-Leads (Idents d) (Idents d) (Idents d) m f (first.keeps d) (λ a. (next a).keeps d);
  }

  throw_if-Keeps : (test : Bool) (str : String) → Keeps (throw_if test str)
  throw_if-Keeps test str = record { keeps = λ d. throw_if-Leads (Idents d) test str }

  outside-Keeps : {A : Type 0} (f : W → A × W) → Keeps (outside f)
  outside-Keeps f = record { keeps = λ d s h. h }

  modify-Keeps :
      (f : Pool W → Pool W)
      → ((s : Pool W) → (f s).streamstates ≡ s.streamstates)
      → Keeps (modify f)
  modify-Keeps f same = record { keeps = λ d s h. (h.0, same s ∙ h.1, h.2) }

  for_each-Keeps :
      {A : Type 0} (f : A → Method W (Unit {0})) (l : List A)
      → ((a : A) → Keeps (f a))
      → Keeps (for_each f l)
  for_each-Keeps f [] each = record { keeps = λ d s h. h }
  for_each-Keeps f (x ∷ l) each =
      bind-Keeps (f x) (λ t. for_each f l) (each x) (λ t. for_each-Keeps f l each)

module _ {W : Type 0} (host : StreamHost W) where
  add_pollfds-Same :
      (l : List (ℤ × ℕ)) (s : Pool W) → (add_pollfds host l s).streamstates ≡ s.streamstates
  add_pollfds-Same [] s = refl
  add_pollfds-Same ((fd, events) ∷ l) s =
      add_pollfds-Same l (add_to_usb_epoll host fd events s)
      ∙ added-Same host "FtdiStreamStatic::add_to_usb_epoll"
          (host.epoll_add fd events s.usb_epoll_fd s.world) s

  use_pollfds-Keeps : (l : Option (List (ℤ × ℕ))) → Keeps (use_pollfds host l)
  use_pollfds-Keeps none = record { keeps = λ d s h. tt }
  use_pollfds-Keeps (some l) = modify-Keeps (add_pollfds host l) (add_pollfds-Same l)

  make_epolls-Keeps : Keeps (make_epolls host)
  make_epolls-Keeps =
      bind-Keeps (outside host.epoll_create) _ (outside-Keeps host.epoll_create) λ fd.
        bind-Keeps (modify λ s. record s { epoll_fd = fd }) _
          (modify-Keeps (λ s. record s { epoll_fd = fd }) (λ s. refl))
          λ t.
            bind-Keeps (throw_if (is_negative fd) "Unable to init epoll") _
              (throw_if-Keeps (is_negative fd) "Unable to init epoll")
              λ t. bind-Keeps (outside host.epoll_create) _ (outside-Keeps host.epoll_create) λ fd.
                bind-Keeps (modify λ s. record s { usb_epoll_fd = fd }) _
                  (modify-Keeps (λ s. record s { usb_epoll_fd = fd }) (λ s. refl))
                  λ t.
                    bind-Keeps (throw_if (is_negative fd) "Unable to init epoll") _
                      (throw_if-Keeps (is_negative fd) "Unable to init epoll")
                      λ t.
                        bind-Keeps (modify (add_to_epoll host fd 1)) _
                          (modify-Keeps (add_to_epoll host fd 1) (add_to_epoll-Same host fd 1))
                          λ t.
                            modify-Keeps (λ s. add_to_epoll host s.notice_event_fd 1 s)
                              (λ s. add_to_epoll-Same host s.notice_event_fd 1 s)

  make_timer-Keeps : Keeps (make_timer host)
  make_timer-Keeps =
      bind-Keeps (outside host.timer_create) _ (outside-Keeps host.timer_create) λ fd.
        bind-Keeps (modify λ s. record s { timer_fd = fd }) _
          (modify-Keeps (λ s. record s { timer_fd = fd }) (λ s. refl))
          λ t.
            bind-Keeps (throw_if (is_negative fd) "Unable to init timer_fd") _
              (throw_if-Keeps (is_negative fd) "Unable to init timer_fd")
              λ t.
                bind-Keeps (outside (host.timer_start fd)) _ (outside-Keeps (host.timer_start fd))
                  λ r.
                    bind-Keeps (throw_if (is_nonzero r) "Unable to start timer_fd") _
                      (throw_if-Keeps (is_nonzero r) "Unable to start timer_fd")
                      λ t. modify-Keeps (add_to_epoll host fd 1) (add_to_epoll-Same host fd 1)

module _ {W : Type 0} (usb : Host W) (host : StreamHost W) where
  reset_context-Keeps : (ftdi : ℕ) → Keeps (reset_context usb host ftdi)
  reset_context-Keeps ftdi =
      bind-Keeps (on_context ftdi (set_bitmode usb 0xff 0)) _ (record { keeps = λ d s h. h })
        λ r.
          bind-Keeps (throw_if (is_negative r) "Can't reset mode") _
            (throw_if-Keeps (is_negative r) "Can't reset mode")
            λ t.
              bind-Keeps (on_context ftdi (tcioflush usb)) _ (record { keeps = λ d s h. h })
                λ r. throw_if-Keeps (is_negative r) "Can't Purge"

  reset_entry-Keeps : (entry : Entry W) → Keeps (reset_entry usb host entry)
  reset_entry-Keeps entry = by_callback entry.reset_callback
    where
      by_callback :
          (callback : Option (ℕ → W → W))
          → Keeps (elim callback [
            | none ↦ reset_context usb host entry.ftdi
            | some f ↦ outside λ w. (tt, f entry.ftdi w)
          ])
      by_callback none = reset_context-Keeps entry.ftdi
      by_callback (some f) = outside-Keeps λ w. (tt, f entry.ftdi w)

  reset-Keeps : Keeps (process_reset_stream_entry usb host true)
  unfolding process_reset_stream_entry
  reset-Keeps = record {
    keeps = λ d s. (for_each-Keeps (reset_entry usb host) s.streams reset_entry-Keeps).keeps d s;
  }

  prepare-Keeps : Keeps (prepare usb host)
  prepare-Keeps = bind-Keeps (make_epolls host) _ (make_epolls-Keeps host) λ t.
      bind-Keeps (make_timer host) _ (make_timer-Keeps host) λ t.
        bind-Keeps (outside host.pollfds) _ (outside-Keeps host.pollfds) λ l.
          bind-Keeps (use_pollfds host l) _ (use_pollfds-Keeps host l) λ t.
            bind-Keeps (outside λ w. (tt, host.set_notifiers w)) _
              (outside-Keeps λ w. (tt, host.set_notifiers w)) λ t. reset-Keeps

  pub started-Idents : (s : Pool W) → Returns (Idents (planned 0 s.streams)) (started usb host s)
  started-Idents s =
      bind-Leads (Idents []) (Idents []) (Idents (planned 0 s.streams)) (prepare usb host)
        (λ t. create_streams host 0 s.streams) (prepare-Keeps.keeps [])
        (λ t. create_streams-Idents host [] 0 s.streams)
        (restarted host (host.monotime s.world).0 (record s { world = (host.monotime s.world).1 }))
        ([], refl, refl)
