-- ===== src/Stream/Control.antt =====
-- FtdiStream::enable_reading, disable_reading and reset_stream, and the setters of FtdiStreamEntry. A
-- set of descriptors is a list without an order. The locks are
-- left out: a call runs between two steps of the loop.
use libsgftdi.Base.{
  ℕ, ℤ, pos, eq_ℤ, is_negative, ◌==◌, ◌||◌, ◌&&◌, List, [], ◌∷◌, Bool, not, Option, none, some,
  if◌then◌else◌,
}
use libsgftdi.Stream.State.{
  CallbackType, Callback, Entry, Pool, StreamHost, done, Method, ◌>>=◌, ◌>>◌, pure, throw, throw_if,
  modify, outside, at_place,
}

-- unordered_set::erase and insert
abbrev pub erase : ℤ → List ℤ → List ℤ
erase fd [] = []
erase fd (x ∷ l) = let rest = erase fd l in if eq_ℤ fd x then rest else x ∷ rest

abbrev pub insert : ℤ → List ℤ → List ℤ
insert fd l = fd ∷ erase fd l

abbrev pub erase_id : ℕ → List ℕ → List ℕ
erase_id i [] = []
erase_id i (x ∷ l) = let rest = erase_id i l in if i == x then rest else x ∷ rest

module _ {W : Type 0} (host : StreamHost W) where
  abbrev is_idle : Pool W → Bool
  is_idle s = (not s.is_started_thr && not s.is_started_poll) || s.should_cancel

  abbrev notify : Method W (Unit {0})
  notify = outside λ w. (tt, host.notice w)

  abbrev stream_at : ℕ → Method W (Entry W)
  stream_at stream_id s = elim (at_place s.streams stream_id) [
    | none ↦ throw "Undefined stream id" s
    | some entry ↦ pure entry s
  ]

  -- READ_GET_FD
  abbrev fd_of : Option (Callback W) → Method W ℤ
  fd_of none = throw "No read callback defined for stream id"
  fd_of (some f) = do
    fd ← outside λ w. (let (r, b, w') = f CallbackType.read_get_fd [] (pos 0) w in (r, w'))
    throw_if (is_negative fd) "Error reported by read callback for stream id"
    pure fd

  abbrev with_fd : ℕ → (ℤ → Pool W → Pool W) → Method W (Unit {0})
  with_fd stream_id f = do
    entry ← stream_at stream_id
    fd ← fd_of entry.read_callback
    modify (f fd)
    notify

  unfoldable pub enable_reading : ℕ → Method W (Unit {0})
  enable_reading stream_id s =
      if is_idle s
      then (done tt, s)
      else with_fd stream_id
          (λ fd s. record s {
            list_disable = erase fd s.list_disable;
            list_enable = insert fd s.list_enable;
          })
          s

  unfoldable pub disable_reading : ℕ → Method W (Unit {0})
  disable_reading stream_id s =
      if is_idle s
      then (done tt, s)
      else with_fd stream_id
          (λ fd s. record s {
            list_enable = erase fd s.list_enable;
            list_disable = insert fd s.list_disable;
          })
          s

  unfoldable pub reset_stream : ℕ → Method W (Unit {0})
  reset_stream stream_id s =
      if is_idle s
      then (done tt, s)
      else (do
        entry ← stream_at stream_id
        modify λ s. record s { list_reset = stream_id ∷ erase_id stream_id s.list_reset }
        notify)
          s

module _ {W : Type 0} where
  unfoldable pub set_read_start_enabled : Bool → Entry W → Entry W
  set_read_start_enabled enabled entry = record entry { read_start_enabled = enabled }

  unfoldable pub set_read_include_modem_status : Bool → Entry W → Entry W
  set_read_include_modem_status enabled entry = record entry { read_include_modem_status = enabled }

  unfoldable pub set_read_transfers : ℕ → ℕ → Entry W → Entry W
  set_read_transfers packets_per_transfer transfers entry = record entry {
    read_transfers = transfers;
    read_packets_per_transfer = packets_per_transfer;
  }

  unfoldable pub set_write_transfers : ℕ → ℕ → Entry W → Entry W
  set_write_transfers packets_per_transfer transfers entry = record entry {
    write_transfers = transfers;
    write_packets_per_transfer = packets_per_transfer;
  }

  unfoldable pub set_callback : Option (Callback W) → Entry W → Entry W
  set_callback callback entry = record entry { read_callback = callback; write_callback = callback }
