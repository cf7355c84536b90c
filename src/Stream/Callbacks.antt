-- ===== src/Stream/Callbacks.antt =====
-- FtdiStreamStatic::read_callback and FtdiStreamStatic::write_callback.
use libsgftdi.Base.{
  ℕ, zero, suc, ◌+◌, ◌-◌, pos, ltb, leb, ◌==◌, ◌&&◌, ◌||◌, is_nonzero, List, [], ◌∷◌, length, take,
  drop, Bool, true, false, not, Option, none, some, String, if◌then◌else◌,
}
use libsgftdi.Stream.State.{
  CallbackType, Callback, Slot, Pool, StreamHost, Completion, Outcome, done, thrown, Method, ◌>>=◌,
  ◌>>◌, pure, throw, throw_if, modify, outside, at_place, slot_at, put_slot, cancel, error,
}
use libsgftdi.Stream.Slot.{call_writer, fill, send}

-- LIBUSB_TRANSFER_COMPLETED and LIBUSB_TRANSFER_CANCELLED
abbrev pub status_completed : ℕ
status_completed = 0

abbrev pub status_cancelled : ℕ
status_cancelled = 3

-- ++counter_callbacks
abbrev pub counted : Slot → Slot
counted slot = record slot { counter_callbacks = slot.counter_callbacks + 1 }

module _ {W : Type 0} where
  abbrev pub call_reader : Callback W → List ℕ → W → W
  call_reader f part w = (f CallbackType.read_buffer part (pos (length part)) w).2

  -- One packet, with the status bytes or without; the bytes behind them are counted.
  abbrev pub hand_packet : Callback W → Bool → List ℕ → ℕ × W → ℕ × W
  hand_packet f true part (count, w) =
      if leb 2 (length part) then (count + (length part - 2), call_reader f part w) else (count, w)
  hand_packet f false part (count, w) =
      if ltb 2 (length part)
      then (count + (length part - 2), call_reader f (drop 2 part) w)
      else (count, w)

  -- The loop over the packets. The fuel is the number of bytes, and every packet has one at least.
  unfoldable pub hand_packets : Callback W → Bool → ℕ → ℕ → List ℕ → ℕ × W → ℕ × W
  hand_packets f modem size zero l st = st
  hand_packets f modem size (suc fuel) [] st = st
  hand_packets f modem size (suc fuel) (x ∷ l) st =
      hand_packets f modem size fuel (drop size (x ∷ l))
        (hand_packet f modem (take size (x ∷ l)) st)

  abbrev pub reader_of : Pool W → ℕ → Option (Callback W)
  reader_of s stream_id = elim (at_place s.streams stream_id) [
    | none ↦ none
    | some entry ↦ entry.read_callback
  ]

  -- What a completed transfer has brought.
  abbrev pub received : ℕ → Slot → List ℕ → Callback W → Pool W → Pool W
  received i slot l f s =
      if ltb 2 (length l)
      then (let (count, w) =
            hand_packets f slot.is_modem_status s.read_packetsize (length l) l
              (slot.counter_bytes, s.world) in
          put_slot i (record slot { counter_bytes = count })
            (record s { ts_activity = s.ts_now; world = w }))
      else if slot.is_modem_status && (length l == 2)
      then put_slot i slot (record s { world = call_reader f l s.world })
      else put_slot i slot s

  abbrev pub hand_received : ℕ → Slot → List ℕ → Method W (Unit {0})
  hand_received i slot l s = elim (reader_of s slot.stream_id) [
    | none ↦
        if ltb 2 (length l) || (slot.is_modem_status && (length l == 2))
        then (thrown "bad_function_call", put_slot i slot s)
        else (done tt, put_slot i slot s)
    | some f ↦ (done tt, received i slot l f s)
  ]

  -- The place is disabled, whatever it is.
  abbrev pub disable : ℕ → Pool W → Pool W
  disable i s = elim (slot_at s i) [
    | none ↦ s
    | some slot ↦ put_slot i (record slot { enabled = false }) s
  ]

module _ {W : Type 0} (host : StreamHost W) where
  abbrev pub resubmit_read : ℕ → Slot → Method W (Unit {0})
  resubmit_read i slot = do
    r ← outside (host.submit_transfer i slot.length slot.buffer)
    throw_if (is_nonzero r) "Submit transfer failed"

  abbrev pub read_again : ℕ → Slot → Completion → Method W (Unit {0})
  read_again i slot e =
      if e.status == status_completed
      then hand_received i slot e.received >> resubmit_read i slot
      else throw "Unexpected LIBUSB_TRANSFER state"

  -- Every exception ends the stream.
  abbrev pub caught : ℕ → String → Outcome (Unit {0}) × Pool W → Pool W
  caught i str (done t, s) = s
  caught i str (thrown e, s) = error host str (disable i s)

  abbrev pub read_slot : Slot → Completion → Pool W → Pool W
  read_slot slot e s =
      let i = e.place in
      if not slot.enabled
      then put_slot i (counted slot) s
      else if (e.status == status_cancelled) || not s.should_run
      then cancel host (put_slot i (record (counted slot) { enabled = false }) s)
      else caught i "read callback" (read_again i (counted slot) e (put_slot i (counted slot) s))

  unfoldable pub read_callback : Completion → Pool W → Pool W
  read_callback e s = elim (slot_at s e.place) [ none ↦ s | some slot ↦ read_slot slot e s ]

  -- WRITE_CONFIRM_TRANSFER, if anything was sent; the code is left in the length of the transfer.
  abbrev pub confirm : ℕ → Slot → ℕ → Method W Slot
  confirm i slot sent =
      if ltb 0 sent
      then (do
        (r, b) ← call_writer host slot CallbackType.write_confirm_transfer [] (pos sent)
        let confirmed = record slot { counter_bytes = slot.counter_bytes + sent; length = r }
        modify (put_slot i confirmed)
        throw_if (is_nonzero r) "Callback WRITE_CONFIRM_TRANSFER reported error"
        pure confirmed)
      else pure slot

  abbrev pub write_again : ℕ → Slot → ℕ → Method W (Unit {0})
  write_again i slot sent = do
    confirmed ← confirm i slot sent
    filled ← fill host confirmed
    send host i filled

  abbrev pub write_slot : Slot → Completion → Pool W → Pool W
  write_slot slot e s =
      let i = e.place in
      if not slot.enabled
      then put_slot i (counted slot) s
      else if (e.status == status_cancelled) || not s.should_run
      then cancel host (put_slot i (record (counted slot) { enabled = false; length = pos 0 }) s)
      else caught i "write callback"
          (write_again i (counted slot) e.sent (put_slot i (counted slot) s))

  unfoldable pub write_callback : Completion → Pool W → Pool W
  write_callback e s = elim (slot_at s e.place) [ none ↦ s | some slot ↦ write_slot slot e s ]

  -- The callback of the transfer of a place.
  unfoldable pub complete : Completion → Pool W → Pool W
  complete e s = elim (slot_at s e.place) [
    | none ↦ s
    | some slot ↦ if slot.is_reading then read_callback e s else write_callback e s
  ]
