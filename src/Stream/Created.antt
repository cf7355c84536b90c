-- ===== src/Stream/Created.antt =====
-- The slots that FtdiStreamStatic::process_init creates.
use libsgftdi.Base.{
  ℕ, pos, ◌+◌, ◌≡◌, refl, ap, sym, subst, ◌∙◌, length, map, List, [], ◌∷◌, ◌++◌, Bool, true, false,
  not, Option, none, some, if◌then◌else◌,
}
use mathlib.Core.List.{append_assoc, append-nil}
use libsgftdi.Stream.State.{
  CallbackType, Callback, Entry, Slot, Pool, StreamHost, ◌>>=◌, ◌>>◌, throw_if, modify, slots,
}
use libsgftdi.Stream.Slot.{invoke}
use libsgftdi.Stream.Start.{
  range, init_slot, make_slot, new_slot, create_streamstate, create_all, create_streams,
}
use libsgftdi.Stream.Leads.{Returns, Leads, bind-Leads, Returns-map}
use libsgftdi.Stream.Planned.{Ident, ident, Idents, Adds, Adds-Idents, init_slot-Adds}

-- What is to be made for one stream, and for all of them from a number on.
module _ {W : Type 0} where
  abbrev pub planned_of : ℕ → Entry W → List Ident
  planned_of stream_id stream =
      let of_kind : Bool → ℕ → Ident =
        λ is_reading i. (stream_id, i, is_reading, stream.read_include_modem_status) in
      map (of_kind true) (range 0 stream.read_transfers)
      ++ map (of_kind false) (range stream.read_transfers stream.write_transfers)

  abbrev pub planned : ℕ → List (Entry W) → List Ident
  planned stream_id [] = []
  planned stream_id (stream ∷ l) = planned_of stream_id stream ++ planned (stream_id + 1) l

module _ {W : Type 0} (host : StreamHost W) where
  make_slot-Idents :
      (d : List Ident) (stream : Entry W) (slot : Slot)
      → Leads (Idents d) (make_slot host stream slot) (Idents (d ++ (ident slot ∷ [])))
  make_slot-Idents d stream slot s (l, here, same) =
      subst
        (λ o.
          Returns (Idents (d ++ (ident slot ∷ [])))
            (make_slot host stream slot (record s { streamstates = o })))
        (sym here) (granted (host.alloc_transfer s.world).0)
    where
      made : Pool W
      made = record s {
        streamstates = some (l ++ (slot ∷ []));
        world = (host.alloc_transfer s.world).1;
      }

      grown : (s : Pool W) → Adds l (ident slot) s → Idents (d ++ (ident slot ∷ [])) s
      grown s h =
          subst (λ k. Idents (k ++ (ident slot ∷ [])) s) same (Adds-Idents l (ident slot) s h)

      granted :
          (b : Bool)
          → Returns (Idents (d ++ (ident slot ∷ []))) (
              (throw_if (not b) "Unable to allocate transfer"
                  >> (modify (λ s. record s {
                    streamstates = some (slots s.streamstates ++ (slot ∷ []));
                  })
                      >> init_slot host (length l) stream slot))
                (record s { streamstates = some l; world = (host.alloc_transfer s.world).1 }))
      granted true =
          Returns-map (Adds l (ident slot)) (Idents (d ++ (ident slot ∷ []))) grown
            (init_slot host (length l) stream slot made)
            (init_slot-Adds host l stream slot made refl)
      granted false = tt

  invoke-Idents :
      (d : List Ident) (callback : Option (Callback W)) (type : CallbackType)
      → Leads (Idents d) (invoke host callback type [] (pos 0)) (Idents d)
  invoke-Idents d none type s h = tt
  invoke-Idents d (some f) type s h = h

  create_streamstate-Idents :
      (d : List Ident) (stream_id : ℕ) (stream : Entry W) (is_reading : Bool) (i : ℕ)
      → Leads
          (Idents d)
          (create_streamstate host stream_id stream is_reading i)
          (Idents (d ++ ((stream_id, i, is_reading, stream.read_include_modem_status) ∷ [])))
  create_streamstate-Idents d stream_id stream is_reading i =
      bind-Leads (Idents d) (Idents d) (Idents (d ++ (own ∷ [])))
        (if is_reading
          then invoke host stream.read_callback CallbackType.read_get_fd [] (pos 0)
          else invoke host stream.write_callback CallbackType.write_get_fd [] (pos 0))
        (λ x. make_slot host stream (new_slot host stream_id stream is_reading i x.0))
        (by_kind is_reading)
        (λ x. make_slot-Idents d stream (new_slot host stream_id stream is_reading i x.0))
    where
      own : Ident
      own = (stream_id, i, is_reading, stream.read_include_modem_status)

      by_kind :
          (reads : Bool)
          → Leads
              (Idents d)
              (if reads
                then invoke host stream.read_callback CallbackType.read_get_fd [] (pos 0)
                else invoke host stream.write_callback CallbackType.write_get_fd [] (pos 0))
              (Idents d)
      by_kind true = invoke-Idents d stream.read_callback CallbackType.read_get_fd
      by_kind false = invoke-Idents d stream.write_callback CallbackType.write_get_fd

  create_all-Idents :
      (d : List Ident) (stream_id : ℕ) (stream : Entry W) (is_reading : Bool) (l : List ℕ)
      → Leads
          (Idents d)
          (create_all host stream_id stream is_reading l)
          (Idents (d ++ map (λ i. (stream_id, i, is_reading, stream.read_include_modem_status)) l))
  create_all-Idents d stream_id stream is_reading [] = λ s h. rw (append-nil d) h
  create_all-Idents d stream_id stream is_reading (i ∷ l) =
      bind-Leads (Idents d) (Idents (d ++ (own i ∷ []))) (Idents (d ++ map own (i ∷ l)))
        (create_streamstate host stream_id stream is_reading i)
        (λ t. create_all host stream_id stream is_reading l)
        (create_streamstate-Idents d stream_id stream is_reading i)
        (λ t.
          subst
            (λ k.
              Leads (Idents (d ++ (own i ∷ []))) (create_all host stream_id stream is_reading l)
                (Idents k))
            (append_assoc d (own i ∷ []) (map own l))
            (create_all-Idents (d ++ (own i ∷ [])) stream_id stream is_reading l))
    where
      own : ℕ → Ident
      own i = (stream_id, i, is_reading, stream.read_include_modem_status)

  pub create_streams-Idents :
      (d : List Ident) (stream_id : ℕ) (l : List (Entry W))
      → Leads (Idents d) (create_streams host stream_id l) (Idents (d ++ planned stream_id l))
  create_streams-Idents d stream_id [] = λ s h. rw (append-nil d) h
  create_streams-Idents d stream_id (stream ∷ l) =
      bind-Leads (Idents d) (Idents (d ++ reads)) (Idents (d ++ planned stream_id (stream ∷ l)))
        (create_all host stream_id stream true (range 0 stream.read_transfers))
        (λ t.
          create_all host stream_id stream false
            (range stream.read_transfers stream.write_transfers)
          >>= λ t. create_streams host (stream_id + 1) l)
        (create_all-Idents d stream_id stream true (range 0 stream.read_transfers))
        (λ t.
          bind-Leads (Idents (d ++ reads)) (Idents (d ++ reads ++ writes))
            (Idents (d ++ planned stream_id (stream ∷ l)))
            (create_all host stream_id stream false
              (range stream.read_transfers stream.write_transfers))
            (λ t. create_streams host (stream_id + 1) l)
            (create_all-Idents (d ++ reads) stream_id stream false
              (range stream.read_transfers stream.write_transfers))
            (λ t.
              subst
                (λ k.
                  Leads (Idents (d ++ reads ++ writes)) (create_streams host (stream_id + 1) l)
                    (Idents k))
                (regrouped (planned (stream_id + 1) l))
                (create_streams-Idents (d ++ reads ++ writes) (stream_id + 1) l)))
    where
      reads : List Ident
      reads =
          map (λ i. (stream_id, i, true, stream.read_include_modem_status))
            (range 0 stream.read_transfers)

      writes : List Ident
      writes =
          map (λ i. (stream_id, i, false, stream.read_include_modem_status))
            (range stream.read_transfers stream.write_transfers)

      regrouped :
          (rest : List Ident) → d ++ reads ++ writes ++ rest ≡ d ++ ((reads ++ writes) ++ rest)
      regrouped rest =
          ap (λ k. k ++ rest) (append_assoc d reads writes) ∙ append_assoc d (reads ++ writes) rest
