-- ===== src/Stream/Slot.antt =====
-- FtdiStreamStaticState::submit and FtdiStreamStaticState::cancel.
use libsgftdi.Base.{
  ℕ, ℤ, pos, is_negative, is_nonzero, List, false, Option, none, some, if◌then◌else◌,
}
use libsgftdi.Stream.State.{
  CallbackType, Callback, Slot, Pool, StreamHost, Method, done, ◌>>=◌, ◌>>◌, pure, throw, throw_if,
  modify, outside, at_place, put_slot,
}

module _ {W : Type 0} (host : StreamHost W) where
  -- A call of a callback of the stream; an empty std::function throws.
  abbrev pub invoke : Option (Callback W) → CallbackType → List ℕ → ℤ → Method W (ℤ × List ℕ)
  invoke none type buffer len = throw "bad_function_call"
  invoke (some f) type buffer len =
      outside λ w. (let (r, b, w') = f type buffer len w in ((r, b), w'))

  abbrev pub write_callback_of : Pool W → ℕ → Option (Callback W)
  write_callback_of s stream_id = elim (at_place s.streams stream_id) [
    | none ↦ none
    | some entry ↦ entry.write_callback
  ]

  abbrev pub call_writer : Slot → CallbackType → List ℕ → ℤ → Method W (ℤ × List ℕ)
  call_writer slot type buffer len s = invoke (write_callback_of s slot.stream_id) type buffer len s

  -- WRITE_FILL_BUFFER, which gives the transfer its length and its bytes.
  abbrev pub fill : Slot → Method W Slot
  fill slot = do
    (r, buffer) ← call_writer slot CallbackType.write_fill_buffer slot.buffer (pos slot.buffer_size)
    pure (record slot { length = r; buffer = buffer })

  -- A transfer without bytes is not submitted and disables its slot.
  abbrev pub send : ℕ → Slot → Method W (Unit {0})
  send i slot =
      if is_negative slot.length
      then modify (put_slot i slot) >> throw "Callback WRITE_FILL_BUFFER reported error"
      else if is_nonzero slot.length
      then (do
        modify (put_slot i slot)
        r ← outside (host.submit_transfer i slot.length slot.buffer)
        throw_if (is_nonzero r) "Submit transfer error")
      else modify (put_slot i (record slot { enabled = false }))

  abbrev pub prepared : Slot → Method W Slot
  prepared slot =
      if slot.is_reading then pure (record slot { length = pos slot.buffer_size }) else fill slot

  unfoldable pub submit : ℕ → Slot → Method W (Unit {0})
  submit i slot s =
      if s.should_run
      then if slot.enabled then (prepared slot >>= send i) s else (done tt, s)
      else (done tt, s)

  unfoldable pub cancel_slot : ℕ → Slot → Pool W → Pool W
  cancel_slot i slot s =
      if slot.enabled then record s { world = (host.cancel_transfer i s.world).1 } else s
