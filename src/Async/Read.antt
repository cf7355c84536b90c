-- ===== src/Async/Read.antt =====
-- ftdi_read_data_submit and ftdi_read_data_cb. Sizes are below 2^31, packets have more than two bytes.
use libsgftdi.Base.{
  ℕ, ◌+◌, ◌-◌, Bool, true, false, Option, none, some, ltb, leb, ◌==◌, if◌then◌else◌,
}
use libsgftdi.Base.{memcpy}
use libsgftdi.Context.{Context}
use libsgftdi.Usb.{Host, Sys}
use libsgftdi.Read.{contents, strip, Stripped}
use libsgftdi.Async.Transfer.{AsyncUsb, Completion, Direction, Transfer, TransferControl}
use libsgftdi.Async.Transfer.{resubmit, begin}

abbrev pub emptied : Context → Context
emptied c = record c { readbuffer_remaining = 0; readbuffer_offset = 0 }

-- The stripped bytes handed to the caller as far as they fit, and whether the callback returns then.
unfoldable pub hand_over : Context → Stripped → TransferControl → Bool × TransferControl × Context
hand_over c s tc =
    let from = c.readbuffer_offset + 2 in
    let c = record c { readbuffer = some s.buffer; readbuffer_offset = from } in
    let n = s.actual_length in
    let part_size = tc.size - tc.offset in
    let fit = record tc { buf = memcpy tc.offset s.buffer from n tc.buf; offset = tc.offset + n } in
    let part = record tc {
      buf = memcpy tc.offset s.buffer from part_size tc.buf;
      offset = tc.offset + part_size;
      completed = 1;
    } in
    let kept = record c {
      readbuffer_offset = from + part_size;
      readbuffer_remaining = n - part_size;
    } in
    if ltb 0 n
    then if leb (tc.offset + n) tc.size
      then if tc.offset + n == tc.size
        then (true, record fit { completed = 1 }, emptied c)
        else (false, fit, emptied c)
      else (true, part, kept)
    else (false, tc, c)

-- What the callback does with the bytes in the read buffer, which libusb has filled.
unfoldable pub on_received :
    Context → Completion → TransferControl → Bool × TransferControl × Context
on_received c e tc =
    let m = memcpy 0 e.received 0 e.actual_length (contents c.readbuffer) in
    let c = record c { readbuffer = some m } in
    if ltb 2 e.actual_length
    then hand_over c (strip c.max_packet_size (c.readbuffer_offset + 2) e.actual_length m) tc
    else (false, tc, c)

-- The control of a read that the bytes kept from before suffice for.
abbrev pub served : Context → (ℕ → ℕ) → ℕ → TransferControl
served c buf size = record {
  completed = 1;
  buf = memcpy 0 (contents c.readbuffer) c.readbuffer_offset size buf;
  size = size;
  offset = size;
  transfer = none;
}

abbrev pub left : Context → ℕ → Context
left c size = record c {
  readbuffer_remaining = c.readbuffer_remaining - size;
  readbuffer_offset = c.readbuffer_offset + size;
}

-- The control and the transfer of a read that goes on behind them.
abbrev pub begun_with : Context → (ℕ → ℕ) → ℕ → TransferControl
begun_with c buf size = record {
  completed = 0;
  buf = memcpy 0 (contents c.readbuffer) c.readbuffer_offset c.readbuffer_remaining buf;
  size = size;
  offset = c.readbuffer_remaining;
  transfer = none;
}

abbrev pub first_read : Context → ℕ → Transfer
first_read c dev = record {
  callback = Direction.reading;
  dev = dev;
  endpoint = c.out_ep;
  start = 0;
  length = c.readbuffer_chunksize;
  timeout = c.usb_read_timeout;
  status = 0;
}

module _ {W : Type 0} (usb : AsyncUsb W) where
  unfoldable pub read_data_cb :
      Context → Completion → Transfer → TransferControl → W → TransferControl × Context × W
  read_data_cb c e t tc w =
      let t = record t { status = e.status } in
      let (returns, tc, c) = on_received c e (record tc { transfer = some t }) in
      let (again, w') = resubmit usb t tc w in if returns then (tc, c, w) else (again, c, w')

  module _ (host : Host W) where
    -- More is wanted than was kept from before.
    unfoldable pub read_more : Context → ℕ → (ℕ → ℕ) → ℕ → W → Option TransferControl × Context × W
    read_more c dev buf size w =
        let (begun, w') = begin usb (first_read c dev) (begun_with c buf size) w in
        (begun, (if (usb.alloc_transfer w).0 then emptied c else c), w')

    -- On an open device. `sizeof` is that of struct ftdi_transfer_control.
    unfoldable pub read_submit :
        ℕ → Context → ℕ → (ℕ → ℕ) → ℕ → W → Option TransferControl × Context × W
    read_submit sizeof c dev buf size w =
        let (granted, w) = host.alloc sizeof w in
        if granted
        then if leb size c.readbuffer_remaining
          then (some (served c buf size), left c size, w)
          else read_more c dev buf size w
        else (none, c, w)

    unfoldable pub read_data_submit : ℕ → (ℕ → ℕ) → ℕ → Sys W → Option TransferControl × Sys W
    read_data_submit sizeof buf size s = elim s.ftdi [
      | none ↦ (none, s)
      | some c ↦ elim c.usb_dev [
        | none ↦ (none, s)
        | some dev ↦
            let (tc, c, w) = read_submit sizeof c dev buf size s.world in
            (tc, record { ftdi = some c; world = w })
      ]
    ]
