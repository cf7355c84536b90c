-- ===== src/Async/Write.antt =====
-- ftdi_write_data_submit and ftdi_write_data_cb. The size is below 2^31; the chunk size is an `unsigned`
-- that the code takes for an int.
use libsgftdi.Write.{piece}
use libsgftdi.Base.{ℕ, pos, ◌+◌, Option, none, some, ltb_ℤ, int_of, u32, ◌==◌, if◌then◌else◌}
use libsgftdi.Context.{Context}
use libsgftdi.Usb.{Host, Sys}
use libsgftdi.Async.Transfer.{AsyncUsb, Completion, Direction, Transfer, TransferControl}
use libsgftdi.Async.Transfer.{resubmit, begin}

-- What ftdi_write_data_submit fills in.
abbrev pub first_transfer : Context → ℕ → ℕ → Transfer
first_transfer c dev size = record {
  callback = Direction.writing;
  dev = dev;
  endpoint = c.in_ep;
  start = 0;
  length =
      if ltb_ℤ (pos size) (int_of c.writebuffer_chunksize)
      then size
      else u32 c.writebuffer_chunksize;
  timeout = c.usb_write_timeout;
  status = 0;
}

abbrev pub first_control : (ℕ → ℕ) → ℕ → TransferControl
first_control buf size = record {
  completed = 0;
  buf = buf;
  size = size;
  offset = 0;
  transfer = none;
}

module _ {W : Type 0} (usb : AsyncUsb W) where
  unfoldable pub write_data_cb :
      Context → Completion → Transfer → TransferControl → W → TransferControl × W
  write_data_cb c e t tc w =
      let offset = tc.offset + e.actual_length in
      let write_size = piece c.writebuffer_chunksize offset tc.size in
      let ended = record t { status = e.status } in
      let next = record ended { start = offset; length = write_size } in
      let whole = record tc { offset = offset; completed = 1; transfer = some ended } in
      if offset == tc.size then (whole, w) else resubmit usb next (record tc { offset = offset }) w

  module _ (host : Host W) where
    -- On an open device. `sizeof` is that of struct ftdi_transfer_control.
    unfoldable pub write_submit : ℕ → Context → ℕ → (ℕ → ℕ) → ℕ → W → Option TransferControl × W
    write_submit sizeof c dev buf size w =
        let (granted, w) = host.alloc sizeof w in
        if granted
        then begin usb (first_transfer c dev size) (first_control buf size) w
        else (none, w)

    unfoldable pub write_data_submit : ℕ → (ℕ → ℕ) → ℕ → Sys W → Option TransferControl × Sys W
    write_data_submit sizeof buf size s = elim s.ftdi [
      | none ↦ (none, s)
      | some c ↦ elim c.usb_dev [
        | none ↦ (none, s)
        | some dev ↦
            let (tc, w) = write_submit sizeof c dev buf size s.world in (tc, record s { world = w })
      ]
    ]
