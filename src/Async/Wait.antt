-- ===== src/Async/Wait.antt =====
-- ftdi_transfer_data_done and ftdi_transfer_data_cancel. Their loops are on fuel; `none` would mean that
-- it ran out. The timeout of the calls of libusb is not used.
use libsgftdi.Base.{ℕ, zero, suc, ℤ, pos, minus, eq_ℤ, is_negative, Option, none, some, ◌==◌}
use libsgftdi.Base.{not, ◌&&◌, if◌then◌else◌}
use libsgftdi.Context.{Context}
use libsgftdi.Async.Transfer.{AsyncUsb, Completion, Direction, Transfer, TransferControl}
use libsgftdi.Async.Transfer.{transfer_completed}
use libsgftdi.Async.Write.{write_data_cb}
use libsgftdi.Async.Read.{read_data_cb}

-- The control, its context and the outside world.
pub record Waiting (W : Type 0) : Type 0 where
  pub control : TransferControl
  pub context : Context
  pub world : W

module _ {W : Type 0} (usb : AsyncUsb W) where
  -- The callback that libusb calls.
  unfoldable pub callback : Direction → Completion → Transfer → Waiting W → Waiting W
  callback Direction.writing e t s =
      let (tc, w) = write_data_cb usb s.context e t s.control s.world in
      record s { control = tc; world = w }
  callback Direction.reading e t s =
      let (tc, c, w) = read_data_cb usb s.context e t s.control s.world in
      record { control = tc; context = c; world = w }

  abbrev called : Option Completion → Option Transfer → Waiting W → Waiting W
  called none t s = s
  called (some e) none s = s
  called (some e) (some t) s = callback t.callback e t s

  -- One call of libusb_handle_events_timeout_completed: its return code, and what it leaves.
  unfoldable pub handle : Waiting W → ℤ × Waiting W
  handle s =
      let (ret, e, w) = usb.handle_events s.context.usb_ctx s.world in
      (ret, called e s.control.transfer (record s { world = w }))

  -- while (!tc->completed) if (handle events < 0) break;
  unfoldable pub drain : ℕ → Waiting W → Option (Waiting W)
  drain zero s = none
  drain (suc fuel) s =
      let (ret, s') = handle s in
      let next = drain fuel s' in
      if s.control.completed == 0 then if is_negative ret then some s' else next else some s

  abbrev pub cancelled : Waiting W → Waiting W
  cancelled s = elim s.control.transfer [
    | none ↦ s
    | some t ↦ record s { world = usb.cancel_transfer t s.world }
  ]

  -- The control is freed too: what is left are the context and the outside world.
  abbrev pub freed : Waiting W → Context × W
  freed s =
      (s.context, elim s.control.transfer [ none ↦ s.world | some t ↦ usb.free_transfer t s.world ])

  abbrev pub outcome : TransferControl → ℤ
  outcome tc = elim tc.transfer [
    | none ↦ pos tc.offset
    | some t ↦ if t.status == transfer_completed then pos tc.offset else minus 1
  ]

  -- `ret` is the error of a call that failed, after which the transfer is cancelled.
  abbrev failed : ℤ → Option (Waiting W) → Option (ℤ × Context × W)
  failed ret none = none
  failed ret (some s) = let (c, w) = freed s in some (ret, c, w)

  abbrev ended : Waiting W → Option (ℤ × Context × W)
  ended s = let (c, w) = freed s in some (outcome s.control, c, w)

  -- LIBUSB_ERROR_INTERRUPTED is -10 in libusb.h.
  unfoldable pub transfer_data_done : ℕ → Waiting W → Option (ℤ × Context × W)
  transfer_data_done zero s = none
  transfer_data_done (suc fuel) s =
      let (ret, s') = handle s in
      let next = transfer_data_done fuel s' in
      if s.control.completed == 0
      then if is_negative ret && not (eq_ℤ ret (minus 10))
        then failed ret (drain fuel (cancelled s'))
        else next
      else ended s

  abbrev freed_after : Option (Waiting W) → Option (Context × W)
  freed_after none = none
  freed_after (some s) = some (freed s)

  unfoldable pub transfer_data_cancel : ℕ → Waiting W → Option (Context × W)
  transfer_data_cancel fuel s = elim s.control.transfer [
    | none ↦ some (freed s)
    | some t ↦
        if s.control.completed == 0 then freed_after (drain fuel (cancelled s)) else some (freed s)
  ]
