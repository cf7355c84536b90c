-- ===== src/Stream/Start.antt =====
-- FtdiStreamStaticState::init, FtdiStreamStatic::process_init, FtdiStream::start_poll and poll. The
-- size of a buffer is taken to be below 2^31.
use libsgftdi.Base.{
  ℕ, ℤ, zero, suc, pos, minus, ◌+◌, ◌*◌, is_negative, is_nonzero, length, List, [], ◌∷◌, ◌++◌, Bool,
  true, false, not, Option, none, some, if◌then◌else◌, String,
}
use libsgftdi.Usb.{Host}
use libsgftdi.Stream.State.{
  CallbackType, Entry, Slot, Pool, StreamHost, Outcome, done, thrown, Method, ◌>>=◌, ◌>>◌, pure,
  throw, throw_if, modify, outside, slots, put_slot, error,
}
use libsgftdi.Stream.Slot.{invoke, submit}
use libsgftdi.Stream.Events.{process_reset_stream_entry}
use libsgftdi.Stream.Step.{process_step}
use libsgftdi.Stream.Setup.{process_cleanup}

-- How many times from which number on.
abbrev pub range : ℕ → ℕ → List ℕ
range i zero = []
range i (suc n) = i ∷ range (i + 1) n

module _ {W : Type 0} (host : StreamHost W) where
  -- An exception of libshaga becomes an error of the stream.
  abbrev pub added : String → Bool × W → Pool W → Pool W
  added str (false, w) s = record s { world = w }
  added str (true, w) s = error host str (record s { world = w })

  abbrev pub add_to_epoll : ℤ → ℕ → Pool W → Pool W
  add_to_epoll sock ev s =
      added "FtdiStreamStatic::add_to_epoll" (host.epoll_add sock ev s.epoll_fd s.world) s

  abbrev pub add_to_usb_epoll : ℤ → ℕ → Pool W → Pool W
  add_to_usb_epoll sock ev s =
      added "FtdiStreamStatic::add_to_usb_epoll" (host.epoll_add sock ev s.usb_epoll_fd s.world) s

  -- The transfer of a read stream has the length of its buffer, that of a write stream none yet.
  abbrev pub sized : Pool W → Entry W → Slot → Slot
  sized s stream slot =
      let reads = s.read_packetsize * stream.read_packets_per_transfer in
      let writes = s.write_packetsize * stream.write_packets_per_transfer in
      if slot.is_reading
      then record slot {
        enabled = stream.read_start_enabled;
        buffer_size = reads;
        length = pos reads;
      }
      else record slot { enabled = true; buffer_size = writes; length = pos 0 }

  abbrev pub with_buffer : ℕ → Slot → Option (List ℕ) → Method W (Unit {0})
  with_buffer i slot none s =
      (modify (put_slot i slot) >> throw "Unable to allocate transfer buffer") s
  with_buffer i slot (some bytes) s =
      let filled = record slot { buffer = bytes } in
      (do
        modify (put_slot i filled)
        modify λ s. (if filled.is_reading then s else add_to_epoll filled.eventfd 1 s)
        submit host i filled)
        s

  unfoldable pub init_slot : ℕ → Entry W → Slot → Method W (Unit {0})
  init_slot i stream slot s =
      let c = s.contexts stream.ftdi in
      let filled = sized s stream slot in
      let ep = if slot.is_reading then c.out_ep else c.in_ep in
      let n = if slot.is_reading then filled.buffer_size else 0 in
      (do
        bytes ← outside (host.malloc filled.buffer_size)
        outside λ w. (tt, host.fill_transfer i c.usb_dev ep n w)
        with_buffer i filled bytes)
        s

  -- The constructor of a slot, which throws without a transfer, and the slot at the end of the list.
  abbrev pub make_slot : Entry W → Slot → Method W (Unit {0})
  make_slot stream slot s =
      let i = length (slots s.streamstates) in
      (do
        granted ← outside host.alloc_transfer
        throw_if (not granted) "Unable to allocate transfer"
        modify λ s. record s { streamstates = some (slots s.streamstates ++ (slot ∷ [])) }
        init_slot i stream slot)
        s

  abbrev pub new_slot : ℕ → Entry W → Bool → ℕ → ℤ → Slot
  new_slot stream_id stream is_reading transfer_id fd = record {
    stream_id = stream_id;
    transfer_id = transfer_id;
    is_reading = is_reading;
    is_modem_status = stream.read_include_modem_status;
    eventfd = fd;
    buffer_size = 0;
    enabled = false;
    counter_callbacks = 0;
    counter_bytes = 0;
    length = pos 0;
    buffer = [];
  }

  abbrev pub create_streamstate : ℕ → Entry W → Bool → ℕ → Method W (Unit {0})
  create_streamstate stream_id stream is_reading transfer_id = do
    (fd, b) ←
        if is_reading
        then invoke host stream.read_callback CallbackType.read_get_fd [] (pos 0)
        else invoke host stream.write_callback CallbackType.write_get_fd [] (pos 0)
    make_slot stream (new_slot stream_id stream is_reading transfer_id fd)

  abbrev pub create_all : ℕ → Entry W → Bool → List ℕ → Method W (Unit {0})
  create_all stream_id stream is_reading [] = pure tt
  create_all stream_id stream is_reading (i ∷ l) =
      create_streamstate stream_id stream is_reading i >> create_all stream_id stream is_reading l

  abbrev pub create_streams : ℕ → List (Entry W) → Method W (Unit {0})
  create_streams stream_id [] = pure tt
  create_streams stream_id (stream ∷ l) = do
    create_all stream_id stream true (range 0 stream.read_transfers)
    create_all stream_id stream false (range stream.read_transfers stream.write_transfers)
    create_streams (stream_id + 1) l

  -- The state at the start; the time has been read.
  abbrev pub restarted : ℕ → Pool W → Pool W
  restarted now s = record s {
    streamstates = some [];
    epoll_fd = minus 1;
    usb_epoll_fd = minus 1;
    timer_fd = minus 1;
    cancel_counter = pos 3;
    ts_now = now;
    ts_activity = now;
    list_enable = [];
    list_disable = [];
    list_reset = [];
    should_run = true;
    should_cancel = false;
  }

  abbrev pub make_timer : Method W (Unit {0})
  make_timer = do
    fd ← outside host.timer_create
    modify λ s. record s { timer_fd = fd }
    throw_if (is_negative fd) "Unable to init timer_fd"
    r ← outside (host.timer_start fd)
    throw_if (is_nonzero r) "Unable to start timer_fd"
    modify (add_to_epoll fd 1)

  abbrev pub add_pollfds : List (ℤ × ℕ) → Pool W → Pool W
  add_pollfds [] s = s
  add_pollfds ((fd, events) ∷ l) s = add_pollfds l (add_to_usb_epoll fd events s)

  abbrev pub use_pollfds : Option (List (ℤ × ℕ)) → Method W (Unit {0})
  use_pollfds none = throw "Unable to get pollfds"
  use_pollfds (some l) = modify (add_pollfds l)

  abbrev pub make_epolls : Method W (Unit {0})
  make_epolls = do
    fd ← outside host.epoll_create
    modify λ s. record s { epoll_fd = fd }
    throw_if (is_negative fd) "Unable to init epoll"
    fd ← outside host.epoll_create
    modify λ s. record s { usb_epoll_fd = fd }
    throw_if (is_negative fd) "Unable to init epoll"
    modify (add_to_epoll fd 1)
    modify λ s. add_to_epoll s.notice_event_fd 1 s

module _ {W : Type 0} (usb : Host W) (host : StreamHost W) where
  abbrev pub prepare : Method W (Unit {0})
  prepare = do
    make_epolls host
    make_timer host
    l ← outside host.pollfds
    use_pollfds host l
    outside λ w. (tt, host.set_notifiers w)
    process_reset_stream_entry usb host true

  abbrev pub started : Method W (Unit {0})
  started s =
      (do
        now ← outside host.monotime
        modify (restarted host now)
        prepare
        create_streams host 0 s.streams)
        s

  -- An exception is kept as an error and thrown again.
  abbrev pub cleaned_up : Outcome (Unit {0}) × Pool W → Outcome (Unit {0}) × Pool W
  cleaned_up (done t, s) = (done t, s)
  cleaned_up (thrown str, s) =
      (thrown str, error host "FtdiStreamStatic::process_init" (process_cleanup host s))

  unfoldable pub process_init : Method W (Unit {0})
  process_init s = elim s.streamstates [
    | none ↦ cleaned_up (started s)
    | some l ↦ (thrown "State wasn't properly destroyed", s)
  ]

  abbrev pub polling : Outcome (Unit {0}) × Pool W → Outcome (Unit {0}) × Pool W
  polling (done t, s) = (done t, record s { is_started_poll = true })
  polling (thrown str, s) =
      (thrown str, record (process_cleanup host s) { is_started_poll = false })

  unfoldable pub start_poll : Method W (Unit {0})
  start_poll s =
      if s.is_started_thr
      then (thrown "Thread version is already started", s)
      else if s.is_started_poll
      then (done tt, s)
      else polling (process_init s)

  unfoldable pub poll : ℤ → Method W Bool
  poll timeout s = if s.is_started_poll then process_step usb host timeout s else (done false, s)
