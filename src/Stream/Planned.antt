-- ===== src/Stream/Planned.antt =====
-- A slot that is made keeps its identity while it is filled and submitted.
use libsgftdi.Base.{
  ℕ, ℤ, pos, ◌*◌, ◌≡◌, refl, ap, ◌∙◌, is_negative, is_nonzero, length, map, set, List, [], ◌∷◌,
  ◌++◌, Bool, true, false, Option, none, some, if◌then◌else◌, String,
}
use mathlib.Core.List.{map-append}
use libsgftdi.Stream.State.{
  CallbackType, Callback, Entry, Slot, Pool, StreamHost, done, ◌>>=◌, ◌>>◌, pure, throw, throw_if,
  modify, outside, put_slot,
}
use libsgftdi.Stream.Slot.{invoke, submit, send, fill, prepared, write_callback_of}
use libsgftdi.Stream.Start.{added, add_to_epoll, sized, with_buffer, init_slot}
use libsgftdi.Stream.Leads.{Returns, throw_if-Leads, if-Returns}

-- A slot by its stream, its number, whether it reads, and whether it keeps the modem status.
abbrev pub Ident : Type 0
Ident = ℕ × ℕ × Bool × Bool

abbrev pub ident : Slot → Ident
ident slot = (slot.stream_id, slot.transfer_id, slot.is_reading, slot.is_modem_status)

set-last : {A : Type 0} (l : List A) (x y : A) → set (l ++ (x ∷ [])) (length l) y ≡ l ++ (y ∷ [])
set-last [] x y = refl
set-last (z ∷ l) x y = ap (λ k. z ∷ k) (set-last l x y)

module _ {W : Type 0} where
  -- The slots of the state, without what changes while they work.
  abbrev pub Idents : List Ident → Pool W → Type 0
  Idents d s = (l : List Slot) × (s.streamstates ≡ some l) × (map ident l ≡ d)

  -- Behind those of a list, there is one more.
  abbrev pub Adds : List Slot → Ident → Pool W → Type 0
  Adds l d s = (y : Slot) × (s.streamstates ≡ some (l ++ (y ∷ []))) × (ident y ≡ d)

  pub Adds-Idents :
      (l : List Slot) (d : Ident) (s : Pool W) → Adds l d s → Idents (map ident l ++ (d ∷ [])) s
  Adds-Idents l d s (y, here, same) =
      (l ++ (y ∷ []), here, map-append ident l (y ∷ []) ∙ ap (λ k. map ident l ++ (k ∷ [])) same)

  put_slot-Adds :
      (l : List Slot) (d : Ident) (slot : Slot) (s : Pool W)
      → ident slot ≡ d
      → Adds l d s
      → Adds l d (put_slot (length l) slot s)
  put_slot-Adds l d slot s mine (y, here, same) =
      (slot, rw here (ap some (set-last l y slot)), mine)

module _ {W : Type 0} (host : StreamHost W) where
  send-Adds :
      (l : List Slot) (d : Ident) (slot : Slot) (s : Pool W)
      → ident slot ≡ d
      → Adds l d s
      → Returns (Adds l d) (send host (length l) slot s)
  send-Adds l d slot s mine h = after (is_negative slot.length) (is_nonzero slot.length)
    where
      sent : ℤ × W
      sent = host.submit_transfer (length l) slot.length slot.buffer s.world

      after :
          (failed some_left : Bool)
          → Returns (Adds l d) (
              (if failed
                  then modify (put_slot (length l) slot)
                    >> throw "Callback WRITE_FILL_BUFFER reported error"
                  else if some_left
                  then (do
                    modify (put_slot (length l) slot)
                    r ← outside (host.submit_transfer (length l) slot.length slot.buffer)
                    throw_if (is_nonzero r) "Submit transfer error")
                  else modify (put_slot (length l) (record slot { enabled = false })))
                s)
      after true some_left = tt
      after false true =
          throw_if-Leads (Adds l d) (is_nonzero sent.0) "Submit transfer error"
            (record (put_slot (length l) slot s) { world = sent.1 })
            (put_slot-Adds l d slot s mine h)
      after false false = put_slot-Adds l d (record slot { enabled = false }) s mine h

  submit-Adds :
      (l : List Slot) (d : Ident) (slot : Slot) (s : Pool W)
      → ident slot ≡ d
      → Adds l d s
      → Returns (Adds l d) (submit host (length l) slot s)
  unfolding submit
  submit-Adds l d slot s mine h =
      if-Returns (Adds l d) s.should_run
        (if slot.enabled then (prepared host slot >>= send host (length l)) s else (done tt, s))
        (done tt, s)
        (if-Returns (Adds l d) slot.enabled ((prepared host slot >>= send host (length l)) s)
          (done tt, s) (by_kind slot.is_reading) h)
        h
    where
      by_callback :
          (callback : Option (Callback W))
          → Returns (Adds l d) (
              ((invoke host callback CallbackType.write_fill_buffer slot.buffer
                      (pos slot.buffer_size)
                    >>= λ x. pure (record slot { length = x.0; buffer = x.1 }))
                  >>= send host (length l))
                s)
      by_callback none = tt
      by_callback (some f) =
          let x = f CallbackType.write_fill_buffer slot.buffer (pos slot.buffer_size) s.world in
          send-Adds l d (record slot { length = x.0; buffer = x.1 }) (record s { world = x.2 }) mine
            h

      by_kind :
          (reads : Bool)
          → Returns (Adds l d) (
              ((if reads
                    then pure (record slot { length = pos slot.buffer_size })
                    else fill host slot)
                  >>= send host (length l))
                s)
      by_kind true = send-Adds l d (record slot { length = pos slot.buffer_size }) s mine h
      by_kind false = by_callback (write_callback_of host s slot.stream_id)

  pub added-Same :
      (str : String) (r : Bool × W) (s : Pool W)
      → (added host str r s).streamstates ≡ s.streamstates
  added-Same str (true, w) s = refl
  added-Same str (false, w) s = refl

  pub add_to_epoll-Same :
      (sock : ℤ) (ev : ℕ) (s : Pool W) → (add_to_epoll host sock ev s).streamstates ≡ s.streamstates
  add_to_epoll-Same sock ev s =
      added-Same "FtdiStreamStatic::add_to_epoll" (host.epoll_add sock ev s.epoll_fd s.world) s

  with_buffer-Adds :
      (l : List Slot) (d : Ident) (slot : Slot) (bytes : Option (List ℕ)) (s : Pool W)
      → ident slot ≡ d
      → Adds l d s
      → Returns (Adds l d) (with_buffer host (length l) slot bytes s)
  with_buffer-Adds l d slot none s mine h = tt
  with_buffer-Adds l d slot (some bytes) s mine h =
      let filled = record slot { buffer = bytes } in
      let there = put_slot (length l) filled s in
      submit-Adds l d filled
        (if slot.is_reading then there else add_to_epoll host slot.eventfd 1 there) mine
        (polled slot.is_reading there (put_slot-Adds l d filled s mine h))
    where
      polled :
          (reads : Bool) (s : Pool W)
          → Adds l d s
          → Adds l d (if reads then s else add_to_epoll host slot.eventfd 1 s)
      polled true s h = h
      polled false s (y, here, same) = (y, add_to_epoll-Same slot.eventfd 1 s ∙ here, same)

  sized-ident :
      (s : Pool W) (stream : Entry W) (slot : Slot) → ident (sized host s stream slot) ≡ ident slot
  sized-ident s stream slot = by_kind slot.is_reading
    where
      by_kind :
          (reads : Bool)
          → ident (
              if reads
              then record slot {
                enabled = stream.read_start_enabled;
                buffer_size = s.read_packetsize * stream.read_packets_per_transfer;
                length = pos (s.read_packetsize * stream.read_packets_per_transfer);
              }
              else record slot {
                enabled = true;
                buffer_size = s.write_packetsize * stream.write_packets_per_transfer;
                length = pos 0;
              })
            ≡ ident slot
      by_kind true = refl
      by_kind false = refl

  pub init_slot-Adds :
      (l : List Slot) (stream : Entry W) (slot : Slot) (s : Pool W)
      → s.streamstates ≡ some (l ++ (slot ∷ []))
      → Returns (Adds l (ident slot)) (init_slot host (length l) stream slot s)
  unfolding init_slot
  init_slot-Adds l stream slot s h =
      let filled = sized host s stream slot in
      let (bytes, w) = host.malloc filled.buffer_size s.world in
      with_buffer-Adds l (ident slot) filled bytes
        (record s {
          world =
              host.fill_transfer (length l) (s.contexts stream.ftdi).usb_dev
                (if slot.is_reading
                  then (s.contexts stream.ftdi).out_ep
                  else (s.contexts stream.ftdi).in_ep)
                (if slot.is_reading then filled.buffer_size else 0) w;
        })
        (sized-ident s stream slot) (slot, h, refl)
