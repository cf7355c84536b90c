-- ===== src/Stream/State.antt =====
-- FtdiStreamEntry, FtdiStreamStaticState and FtdiStreamState. The callbacks of the user and what the
-- code calls of libusb, of Linux and of libshaga are functions over the outside world. A pointer to a
-- context is an address in `contexts`; a std::function that is empty is `none`. The strings of errors
-- are without the values that are printed into them, and the counters are natural numbers.
use libsgftdi.Base.{
  ℕ, ℤ, zero, suc, List, [], ◌∷◌, set, Bool, true, false, Option, none, some, String,
}
use libsgftdi.Context.{Context}

-- enum class CallbackType
pub data CallbackType : Type 0 where
  write_get_fd read_get_fd write_fill_buffer write_confirm_transfer read_buffer : CallbackType

-- The buffer and `len` of a call; the result, and the buffer after it.
abbrev pub Callback : Type 0 → Type 0
Callback W = CallbackType → List ℕ → ℤ → W → ℤ × List ℕ × W

pub record Entry (W : Type 0) : Type 0 where
  pub ftdi : ℕ
  pub read_start_enabled : Bool
  pub read_include_modem_status : Bool
  pub read_callback : Option (Callback W)
  pub read_transfers : ℕ
  pub read_packets_per_transfer : ℕ
  pub write_callback : Option (Callback W)
  pub write_transfers : ℕ
  pub write_packets_per_transfer : ℕ
  pub counter_callback : Option (Bool → ℕ → ℕ → ℕ → W → W)
  pub reset_callback : Option (ℕ → W → W)

-- FtdiStreamStaticState, with the length and the buffer of its transfer, which are there once `init`
-- has not thrown.
pub record Slot : Type 0 where
  pub stream_id : ℕ
  pub transfer_id : ℕ
  pub is_reading : Bool
  pub is_modem_status : Bool
  pub eventfd : ℤ
  pub buffer_size : ℕ
  pub enabled : Bool
  pub counter_callbacks : ℕ
  pub counter_bytes : ℕ
  pub length : ℤ
  pub buffer : List ℕ

-- FtdiStreamState with the outside world. `streamstates` is in the order in which the slots were made,
-- so that a slot keeps its place; `places` gives the order of the multimap.
pub record Pool (W : Type 0) : Type 0 where
  pub streams : List (Entry W)
  pub contexts : ℕ → Context
  pub streamstates : Option (List Slot)
  pub notice_event_fd : ℤ
  pub epoll_fd : ℤ
  pub usb_epoll_fd : ℤ
  pub timer_fd : ℤ
  pub read_packetsize : ℕ
  pub write_packetsize : ℕ
  pub timeout : ℕ
  pub cancel_counter : ℤ
  pub is_started_thr : Bool
  pub is_started_poll : Bool
  pub should_run : Bool
  pub should_cancel : Bool
  pub ts_now : ℕ
  pub ts_activity : ℕ
  pub list_enable : List ℤ
  pub list_disable : List ℤ
  pub list_reset : List ℕ
  pub world : W

-- The end of a transfer: its place in `streamstates`, its status, and what was received or how much
-- was sent, of which actual_length is the number.
pub record Completion : Type 0 where
  pub place : ℕ
  pub status : ℕ
  pub received : List ℕ
  pub sent : ℕ

-- What read() from a file descriptor of events comes to: EWOULDBLOCK and EINTR are `again`.
pub data Reading : Type 0 where
  ready again broken : Reading

pub record StreamHost (W : Type 0) : Type 0 where
  -- libusb_submit_transfer and libusb_cancel_transfer, on the transfer of a place, its length and buffer
  pub submit_transfer : ℕ → ℤ → List ℕ → W → ℤ × W
  pub cancel_transfer : ℕ → W → ℤ × W
  -- libusb_handle_events_timeout: the code, and the transfers whose callbacks it calls, in this order
  pub handle_events : W → ℤ × List Completion × W
  -- epoll_wait with a timeout: the descriptors that are ready; `none` is an error
  pub epoll_wait : ℤ → W → Option (List ℤ) × W
  pub read_event : ℤ → W → Reading × W
  -- the write to the event descriptor, error_spsc.push_back, and get_monotime_sec
  pub notice : W → W
  -- libusb_set_pollfd_notifiers with null pointers, and close
  pub clear_notifiers : W → W
  pub close : ℤ → W → W
  -- the multiplexers: eventfd, epoll_create1, timerfd_create, the start of the timer (its code), and
  -- the addition of a descriptor and its events by libshaga (whether it throws)
  pub eventfd : W → ℤ × W
  pub epoll_create : W → ℤ × W
  pub timer_create : W → ℤ × W
  pub timer_start : ℤ → W → ℤ × W
  pub epoll_add : ℤ → ℕ → ℤ → W → Bool × W
  -- libusb_get_pollfds, with the events of each, and libusb_set_pollfd_notifiers
  pub pollfds : W → Option (List (ℤ × ℕ)) × W
  pub set_notifiers : W → W
  -- libusb_alloc_transfer: is there one? malloc, with the bytes that are there, and
  -- libusb_fill_bulk_transfer for a place, a device, an endpoint and a length
  pub alloc_transfer : W → Bool × W
  pub malloc : ℕ → W → Option (List ℕ) × W
  pub fill_transfer : ℕ → Option ℕ → ℕ → ℕ → W → W
  -- libusb_pollfds_handle_timeouts
  pub handles_timeouts : Option ℕ → W → ℤ × W
  pub push_error : String → W → W
  pub monotime : W → ℕ × W

-- What may throw an exception.
pub data Outcome (A : Type 0) : Type 0 where
  done : A → Outcome A
  thrown : String → Outcome A

abbrev pub Method : Type 0 → Type 0 → Type 0
Method W A = Pool W → Outcome A × Pool W

module _ {W : Type 0} where
  infixl 5 ◌>>=◌ ◌>>◌
  abbrev pub ◌>>=◌ : {A B : Type 0} → Method W A → (A → Method W B) → Method W B
  ◌>>=◌ m f s = let (e, s') = m s in elim e [ done a ↦ f a s' | thrown str ↦ (thrown str, s') ]

  abbrev pub ◌>>◌ : {A B : Type 0} → Method W A → Method W B → Method W B
  m >> k = m >>= λ _. k

  abbrev pub pure : {A : Type 0} → A → Method W A
  pure a s = (done a, s)

  abbrev pub throw : {A : Type 0} → String → Method W A
  throw str s = (thrown str, s)

  abbrev pub throw_if : Bool → String → Method W (Unit {0})
  throw_if true str = throw str
  throw_if false str = pure tt

  -- A part that cannot throw.
  abbrev pub modify : (Pool W → Pool W) → Method W (Unit {0})
  modify f s = (done tt, f s)

  -- A call of the outside world.
  abbrev pub outside : {A : Type 0} → (W → A × W) → Method W A
  outside f s = let (a, w) = f s.world in (done a, record s { world = w })

-- The element at a place.
abbrev pub at_place {ℓ} : {A : Type ℓ} → List A → ℕ → Option A
at_place [] i = none
at_place (x ∷ l) zero = some x
at_place (x ∷ l) (suc i) = at_place l i

abbrev pub slots : Option (List Slot) → List Slot
slots none = []
slots (some l) = l

module _ {W : Type 0} where
  abbrev pub slot_at : Pool W → ℕ → Option Slot
  slot_at s i = at_place (slots s.streamstates) i

  abbrev pub put_slot : ℕ → Slot → Pool W → Pool W
  put_slot i slot s = record s {
    streamstates = elim s.streamstates [ none ↦ none | some l ↦ some (set l i slot) ];
  }

  -- FtdiStreamStatic::cancel and FtdiStreamStatic::error
  abbrev pub cancel : StreamHost W → Pool W → Pool W
  cancel host s = record s { should_run = false; should_cancel = true; world = host.notice s.world }

  abbrev pub error : StreamHost W → String → Pool W → Pool W
  error host str s = record (cancel host s) { world = host.push_error str (host.notice s.world) }
