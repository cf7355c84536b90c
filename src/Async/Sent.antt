-- ===== src/Async/Sent.antt =====
-- What the device gets of an asynchronous write.
use libsgftdi.Base.{
  ℕ, ◌+◌, ◌-◌, ◌≤◌, ◌≡◌, ◌≢◌, refl, ap, ap₂, subst, sym, ◌∙◌, arith, List, [], ◌++◌, none, some,
  Option,
}
use libsgftdi.Write.{piece}
use libsgftdi.Write.Pieces.{piece_plain}
use libsgftdi.Base.{
  ◌<◌, pos, ltb_ℤ, int_of, u32, Bool, Bool-cases, inl, inr, ◌==◌, if◌then◌else◌, true, false,
  is_negative,
}
use libsgftdi.Context.{Context}
use libsgftdi.Usb.{Host}
use libsgftdi.Read.{slice}
use libsgftdi.Read.Payload.{slice-append, slice_at}
use libsgftdi.Async.Transfer.{
  AsyncUsb, Completion, Transfer, TransferControl, resubmit, begin, transfer_cancelled,
}
use libsgftdi.Async.Write.{write_data_cb, write_submit, first_transfer, first_control}

-- The control of a write in progress: not all is written, and the transfer in flight, if there is one,
-- begins where the device has come to, and ends within the buffer.
pub record IsInFlight (tc : TransferControl) : Type 0 where
  pub bounded : tc.offset ≤ tc.size
  pub aligned :
      tc.completed ≡ 0
      → (t : Transfer) × (tc.transfer ≡ some t)
        × (t.start ≡ tc.offset)
        × (t.start + t.length ≤ tc.size)

joined :
    (m m' : ℕ → ℕ) (s o o' o'' n : ℕ) {l : List ℕ}
    → s ≡ o
    → m' ≡ m
    → o' ≡ o + n
    → o' ≤ o''
    → l ≡ slice m' o' (o'' - o')
    → slice m s n ++ l ≡ slice m o (o'' - o)
joined m m' s o o' o'' n at same moved up bytes =
    ap₂ ◌++◌ (slice_at m at refl)
      (bytes ∙ ap (λ m. slice m o' (o'' - o')) same ∙ slice_at m moved refl)
    ∙ sym (slice-append m o n (o'' - o'))
    ∙ slice_at m refl (omega (arith, moved, up))

module _ {W : Type 0} (usb : AsyncUsb W) (c : Context) where
  -- Completions of transfers from one state of a write to another, none of more bytes than the transfer
  -- has, and the bytes that the device took from the transfers' buffers, in order.
  pub data Completions : TransferControl → W → List ℕ → TransferControl → W → Type 0 where
    ended : {tc : TransferControl} {w : W} → Completions tc w [] tc w
    taken :
        (tc : TransferControl) (w w' : W) (e : Completion) (t : Transfer) {l : List ℕ}
        {tc' : TransferControl} {w'' : W}
        → tc.completed ≡ 0
        → tc.transfer ≡ some t
        → e.actual_length ≤ t.length
        → Completions (write_data_cb usb c e t tc w').0 (write_data_cb usb c e t tc w').1 l tc' w''
        → Completions tc w (slice tc.buf t.start e.actual_length ++ l) tc' w''

  resubmit-IsInFlight :
      (t : Transfer) (tc : TransferControl) (w : W)
      → tc.offset ≤ tc.size
      → t.start ≡ tc.offset
      → t.start + t.length ≤ tc.size
      → let (tc', w') = resubmit usb t tc w in
        (tc'.buf ≡ tc.buf) × (tc'.size ≡ tc.size) × (tc'.offset ≡ tc.offset) × IsInFlight tc'
  unfolding resubmit
  resubmit-IsInFlight t tc w lo at fits = elim (Bool-cases (t.status == transfer_cancelled)) [
    | inl over ↦
        rw over (refl, refl, refl, record { bounded = lo; aligned = λ e. (t, refl, at, fits) })
    | inr on ↦ rw on (refl, refl, refl, record { bounded = lo; aligned = λ e. (t, refl, at, fits) })
  ]

  -- The callback moves the offset by what was taken, and keeps the control in order.
  pub step :
      (e : Completion) (t : Transfer) (tc : TransferControl) (w : W)
      → tc.offset + e.actual_length ≤ tc.size
      → tc.size + c.writebuffer_chunksize < 2147483648
      → let (tc', w') = write_data_cb usb c e t tc w in
        (tc'.buf ≡ tc.buf)
        × (tc'.size ≡ tc.size)
        × (tc'.offset ≡ tc.offset + e.actual_length)
        × IsInFlight tc'
  unfolding write_data_cb
  step e t tc w fits int = elim (Bool-cases (tc.offset + e.actual_length == tc.size)) [
    | inl all ↦
        rw all
          (refl, refl, refl, record { bounded = fits; aligned = λ e. absurd (omega (arith, e)) })
    | inr more ↦ rw more (
        resubmit-IsInFlight _ _ w fits refl
          (room tc.size (tc.offset + e.actual_length) c.writebuffer_chunksize fits int))
  ]
    where
      room :
          (size at chunk : ℕ)
          → at ≤ size
          → size + chunk < 2147483648
          → at + piece chunk at size ≤ size
      room size at chunk h int = ground (arith, piece_plain chunk at size (omega (arith, h, int)))

  begun :
      (tc : TransferControl)
      → IsInFlight tc
      → tc.completed ≡ 0
      → (t : Transfer) → tc.transfer ≡ some t
      → (t.start ≡ tc.offset) × (t.start + t.length ≤ tc.size)
  begun tc h running t same =
      let (t', same', at, fits) = h.aligned running in
      let e : t' ≡ t = cc in (ap (λ t. t.start) (sym e) ∙ at, rw e at fits)

  -- Whatever the order and the sizes of the completions of a write: the device has taken the bytes
  -- of the buffer from where the write stood on, each once and in order, up to the offset that the
  -- control shows, which never passes the size; and the write is again in order.
  pub Completions-slice :
      {tc : TransferControl} {w : W} {l : List ℕ} {tc' : TransferControl} {w' : W}
      → IsInFlight tc
      → tc.size + c.writebuffer_chunksize < 2147483648
      → Completions tc w l tc' w'
      → (l ≡ slice tc.buf tc.offset (tc'.offset - tc.offset))
        × (tc.offset ≤ tc'.offset)
        × (tc'.offset ≤ tc.size)
        × (tc'.buf ≡ tc.buf)
        × (tc'.size ≡ tc.size)
        × IsInFlight tc'
  Completions-slice {tc} h int ended =
      (slice_at tc.buf {n = 0} refl (omega arith), omega arith, h.bounded, refl, refl, h)
  Completions-slice h int (taken tc w w1 e t {l} {tc'} {w''} running there few rest) =
      let (at, fits) = begun tc h running t there in
      let (same_buf, same_size, moved, good) = step e t tc w1 (omega (arith, at, fits, few)) int in
      let (bytes, up, lo, buf', size', good') =
        Completions-slice good (omega (arith, int, same_size)) rest in
      (
        joined tc.buf _ t.start tc.offset _ tc'.offset e.actual_length at same_buf moved up bytes,
        omega (arith, up, moved),
        omega (arith, lo, same_size),
        buf' ∙ same_buf,
        size' ∙ same_size,
        good',
      )

pub begin-some :
    {W : Type 0} (usb : AsyncUsb W) (t : Transfer) (tc tc' : TransferControl) (w : W)
    → (begin usb t tc w).0 ≡ some tc'
    → tc' ≡ record tc { transfer = some t }
unfolding begin
begin-some {W} usb t tc tc' w h =
    chosen (usb.alloc_transfer w).0 (is_negative (usb.submit_transfer t (usb.alloc_transfer w).1).0)
      _ _ _ h
  where
    chosen :
        (granted refused : Bool) (w1 w2 w3 : W)
        → let begun : Option TransferControl × W =
            (if granted
              then if refused then (none, w1) else (some (record tc { transfer = some t }), w2)
              else (none, w3)) in
          begun.0 ≡ some tc' → tc' ≡ record tc { transfer = some t }
    chosen true false w1 w2 w3 h = cc
    chosen true true w1 w2 w3 h = absurd cc
    chosen false refused w1 w2 w3 h = absurd cc

pub begin-refused :
    {W : Type 0} (usb : AsyncUsb W) (t : Transfer) (tc tc' : TransferControl) (w : W)
    → (usb.alloc_transfer w).0 ≡ false
    → (begin usb t tc w).0 ≢ some tc'
unfolding begin
begin-refused usb t tc tc' w refused h = nothing tc' (rw refused at h)
  where
    nothing : (tc : TransferControl) → Path (Option TransferControl) none (some tc) → ⊥
    nothing tc h = cc

module _ {W : Type 0} (usb : AsyncUsb W) (host : Host W) (sizeof : ℕ) (c : Context) (dev : ℕ)
    (buf : ℕ → ℕ) (size : ℕ) where
  pub write_submit-control :
      (w : W) (tc : TransferControl)
      → (write_submit usb host sizeof c dev buf size w).0 ≡ some tc
      → tc ≡ record (first_control buf size) { transfer = some (first_transfer c dev size) }
  unfolding write_submit
  write_submit-control w tc h = elim (Bool-cases (host.alloc sizeof w).0) [
    | inl granted ↦
        begin-some usb (first_transfer c dev size) (first_control buf size) tc _ (rw granted at h)
    | inr refused ↦ absurd (nothing tc (rw refused at h))
  ]
    where
      nothing : (tc : TransferControl) → Path (Option TransferControl) none (some tc) → ⊥
      nothing tc h = cc

  -- With a size and a chunk size whose sum fits an int: a write that ftdi_write_data_submit has begun,
  -- in any state that completions lead to: what the
  -- device has taken are the first bytes of the buffer, as many as the offset says, and these are
  -- at most `size`.
  pub write_submit-Completions :
      (w : W) (tc : TransferControl)
      → size + c.writebuffer_chunksize < 2147483648
      → (write_submit usb host sizeof c dev buf size w).0 ≡ some tc
      → (w1 : W) {l : List ℕ} {tc' : TransferControl} {w' : W} → Completions usb c tc w1 l tc' w'
      → (l ≡ slice buf 0 tc'.offset) × (tc'.offset ≤ size)
  write_submit-Completions w tc int h w1 {l} {tc'} steps =
      let e = write_submit-control w tc h in
      let (bytes, up, lo, buf', size', good) =
        Completions-slice usb c (subst IsInFlight (sym e) start)
          (omega (arith, ap (λ t. t.size) e, int)) steps in
      let at : tc.offset ≡ 0 = ap (λ t. t.offset) e in
      let same : tc.buf ≡ buf = ap (λ t. t.buf) e in
      let whole : tc.size ≡ size = ap (λ t. t.size) e in
      (
        bytes
            ∙ ap (λ m. slice m tc.offset (tc'.offset - tc.offset)) same
            ∙ slice_at buf at (omega (arith, at)),
        omega (arith, lo, whole),
      )
    where
      first :
          (chunk : ℕ)
          → size + chunk < 2147483648
          → (if ltb_ℤ (pos size) (int_of chunk) then size else u32 chunk) ≤ size
      first chunk int = ground arith

      start :
          IsInFlight
            (record (first_control buf size) { transfer = some (first_transfer c dev size) })
      start = record {
        bounded = omega arith;
        aligned = λ e. (_, refl, refl, omega (arith, first c.writebuffer_chunksize int));
      }
