-- ===== src/Tests/Stream.antt =====
-- A read stream with one transfer on a bench, whose outside world is the bytes that were gathered, and
-- one that is to stop.
use libsgftdi.Base.{ℕ, pos, minus, ◌≡◌, refl, arith, List, [], ◌∷◌, ◌++◌, none, some, true, false}
use libsgftdi.Usb.{Host}
use libsgftdi.Read.Payload.{payload}
use libsgftdi.Stream.State.{
  Callback, Entry, Slot, Pool, StreamHost, Completion, Reading, Outcome, done,
}
use libsgftdi.Stream.Callbacks.{read_callback, hand_packets}
use libsgftdi.Stream.Slot.{submit}
use libsgftdi.Stream.Events.{process_reset_stream_entry}
use libsgftdi.Control.{set_bitmode, tcioflush, tciflush, tcoflush}
use libsgftdi.Stream.Step.{process_loop}
use libsgftdi.Stream.Gathered.{Gathers, IsAccepting, Continues, read_callback-payload}
use libsgftdi.Stream.Ends.{process_loop-ends}
use libsgftdi.Stream.Setup.{ftdi_stream, check_streams, usb_ctx_of}
use libsgftdi.Stream.Start.{start_poll, process_init, init_slot}
use libsgftdi.Stream.Started.{Started, start_poll-Started}
use libsgftdi.Stream.Fit.{AllFit, ftdi_stream-AllFit}
use libsgftdi.Tests.Bench.{opened}

abbrev Log : Type 0
Log = List ℕ

abbrev log : Log → List ℕ
log w = w

abbrev gather : Callback Log
gather type part n w = (pos 0, [], w ++ part)

abbrev pub idle : {W : Type 0} → StreamHost W
idle = record {
  submit_transfer = λ i n b w. (pos 0, w);
  cancel_transfer = λ i w. (pos 0, w);
  handle_events = λ w. (pos 0, [], w);
  epoll_wait = λ timeout w. (some (pos 4 ∷ []), w);
  read_event = λ fd w. (Reading.ready, w);
  notice = λ w. w;
  clear_notifiers = λ w. w;
  close = λ fd w. w;
  handles_timeouts = λ ctx w. (pos 1, w);
  eventfd = λ w. (pos 3, w);
  epoll_create = λ w. (pos 6, w);
  timer_create = λ w. (pos 5, w);
  timer_start = λ fd w. (pos 0, w);
  epoll_add = λ fd events epoll_fd w. (false, w);
  pollfds = λ w. (some [], w);
  set_notifiers = λ w. w;
  alloc_transfer = λ w. (true, w);
  malloc = λ size w. (some [], w);
  fill_transfer = λ i dev ep length w. w;
  push_error = λ str w. w;
  monotime = λ w. (1, w);
}

abbrev desk : StreamHost Log
desk = idle

abbrev usb : Host Log
usb = record {
  control_out = λ dev setup w. (pos 0, w);
  control_in = λ dev setup size w. (pos 0, [], w);
  bulk_out = λ dev ep l timeout w. (pos 0, 0, w);
  bulk_in = λ dev ep size timeout w. (pos 0, [], w);
  release_interface = λ dev interface w. (pos 0, w);
  close = λ dev w. w;
  init = λ w. (pos 0, 7, w);
  exit = λ ctx w. w;
  alloc = λ size w. (true, w);
}

abbrev reader : Entry Log
reader = record {
  ftdi = 0;
  read_start_enabled = true;
  read_include_modem_status = false;
  read_callback = some gather;
  read_transfers = 1;
  read_packets_per_transfer = 2;
  write_callback = none;
  write_transfers = 0;
  write_packets_per_transfer = 0;
  counter_callback = none;
  reset_callback = none;
}

abbrev slot : Slot
slot = record {
  stream_id = 0;
  transfer_id = 0;
  is_reading = true;
  is_modem_status = false;
  eventfd = minus 1;
  buffer_size = 8;
  enabled = true;
  counter_callbacks = 0;
  counter_bytes = 0;
  length = pos 8;
  buffer = [];
}

abbrev running : Pool Log
running = record {
  streams = reader ∷ [];
  contexts = λ k. opened;
  streamstates = some (slot ∷ []);
  notice_event_fd = pos 3;
  epoll_fd = pos 6;
  usb_epoll_fd = pos 4;
  timer_fd = pos 5;
  read_packetsize = 4;
  write_packetsize = 4096;
  timeout = 10;
  cancel_counter = pos 3;
  is_started_thr = false;
  is_started_poll = true;
  should_run = true;
  should_cancel = false;
  ts_now = 0;
  ts_activity = 0;
  list_enable = [];
  list_disable = [];
  list_reset = [];
  world = [];
}

-- Two packets, the last of which is short.
abbrev full : Completion
full = record { place = 0; status = 0; received = 1 ∷ 96 ∷ 65 ∷ 66 ∷ 1 ∷ 96 ∷ 67 ∷ []; sent = 0 }

gather-Gathers : Gathers log gather
gather-Gathers = record { appends = λ part n w. refl }

desk-IsAccepting : IsAccepting log desk
desk-IsAccepting = record { accepts = λ i n b w. (refl, refl) }

read_callback-payload_example :
    Continues log slot (payload 4 full.received) running (read_callback desk full running) 0
read_callback-payload_example =
    read_callback-payload log gather gather-Gathers desk desk-IsAccepting full running slot refl
      refl refl refl refl refl (omega arith)

gathered : (read_callback desk full running).world ≡ 65 ∷ 66 ∷ 67 ∷ []
unfolding read_callback hand_packets
gathered = refl

process_loop-ends_example :
    (o : Outcome (Unit {0})) × (s' : Pool Log) × (process_loop usb desk 4
        (record running { should_run = false })
      ≡ some (o, s'))
    × (s'.should_run ≡ false)
process_loop-ends_example =
    process_loop-ends usb desk (λ w. cc) 3 (record running { should_run = false }) refl refl

-- The stream of `running` with the packet sizes that its checks leave.
abbrev fitted : Pool Log
fitted = record running { read_packetsize = 4; write_packetsize = 2 }

ftdi_stream_of_running : ftdi_stream desk running ≡ (done tt, fitted)
unfolding ftdi_stream check_streams
ftdi_stream_of_running = refl

ftdi_stream-AllFit_example : AllFit (usb_ctx_of running) fitted (reader ∷ [])
ftdi_stream-AllFit_example = ftdi_stream-AllFit desk running fitted ftdi_stream_of_running

-- A stream of two transfers that has not been started.
abbrev fresh : Pool Log
fresh = record running {
  streams = record reader { read_transfers = 2 } ∷ [];
  streamstates = none;
  is_started_poll = false;
}

start_poll-Started_example :
    Started (record reader { read_transfers = 2 } ∷ []) (start_poll usb desk fresh)
start_poll-Started_example = start_poll-Started usb desk fresh refl refl refl

fresh_starts : (start_poll usb desk fresh).0 ≡ done tt
unfolding start_poll process_init init_slot process_reset_stream_entry submit set_bitmode tcioflush
    tciflush tcoflush
fresh_starts = refl
