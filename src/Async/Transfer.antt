-- ===== src/Async/Transfer.antt =====
-- struct ftdi_transfer_control, and what the library uses of libusb's asynchronous interface, which is
-- no part of the repository: the operations of `AsyncUsb` over the outside world.
use libsgftdi.Base.{ℕ, ℤ, is_negative, Bool, Option, none, some, ◌==◌, if◌then◌else◌}

-- The callback of a transfer: ftdi_read_data_cb or ftdi_write_data_cb.
pub data Direction : Type 0 where
  reading writing : Direction

-- The fields of a struct libusb_transfer that the code sets or reads. `start` is where the transfer's
-- buffer begins in the buffer that it is a part of.
pub record Transfer : Type 0 where
  pub callback : Direction
  pub dev : ℕ
  pub endpoint : ℕ
  pub start : ℕ
  pub length : ℕ
  pub timeout : ℕ
  pub status : ℕ

-- `transfer` is `none` for NULL. The context of the field `ftdi` stands beside the control.
pub record TransferControl : Type 0 where
  pub completed : ℕ
  pub buf : ℕ → ℕ
  pub size : ℕ
  pub offset : ℕ
  pub transfer : Option Transfer

-- The end of a transfer, at which libusb calls the callback: its status, how many bytes were moved, and
-- for a transfer from the device which.
pub record Completion : Type 0 where
  pub status : ℕ
  pub actual_length : ℕ
  pub received : ℕ → ℕ

pub record AsyncUsb (W : Type 0) : Type 0 where
  -- libusb_alloc_transfer(0): whether it is granted
  pub alloc_transfer : W → Bool × W
  -- libusb_submit_transfer, libusb_cancel_transfer and libusb_free_transfer
  pub submit_transfer : Transfer → W → ℤ × W
  pub cancel_transfer : Transfer → W → W
  pub free_transfer : Transfer → W → W
  -- libusb_handle_events_timeout_completed: the return code, and the completion of the transfer if
  -- the callback is to be called
  pub handle_events : Option ℕ → W → ℤ × Option Completion × W

-- LIBUSB_TRANSFER_COMPLETED and LIBUSB_TRANSFER_CANCELLED
abbrev pub transfer_completed : ℕ
transfer_completed = 0

abbrev pub transfer_cancelled : ℕ
transfer_cancelled = 3

module _ {W : Type 0} (usb : AsyncUsb W) where
  -- How both callbacks end that want more: a cancelled transfer is over, another is submitted again.
  unfoldable pub resubmit : Transfer → TransferControl → W → TransferControl × W
  resubmit t tc w =
      let (ret, w') = usb.submit_transfer t w in
      let again = record tc {
        completed = if is_negative ret then 1 else tc.completed;
        transfer = some t;
      } in
      if t.status == transfer_cancelled
      then (record tc { completed = transfer_cancelled; transfer = some t }, w)
      else (again, w')

  -- Allocating and submitting the first transfer; NULL if either fails.
  unfoldable pub begin : Transfer → TransferControl → W → Option TransferControl × W
  begin t tc w =
      let (granted, w) = usb.alloc_transfer w in
      let (ret, w') = usb.submit_transfer t w in
      if granted
      then if is_negative ret
        then (none, usb.free_transfer t w')
        else (some (record tc { transfer = some t }), w')
      else (none, w)
