-- ===== src/Async/Pending.antt =====
-- An asynchronous write in flight, and what one completion does to it.
use libsgftdi.Base.{
  ℕ, zero, suc, ◌+◌, ◌≤◌, ◌<◌, ◌≡◌, ◌≢◌, refl, ap, ◌∙◌, arith, some, none, Option, pos, minus,
}
use libsgftdi.Base.{Bool-cases, inl, inr, ◌⊎◌, ◌==◌, ==_iff, false, is_negative}
use libsgftdi.Context.{Context}
use libsgftdi.Write.{piece}
use libsgftdi.Write.Pieces.{piece_plain}
use libsgftdi.Async.Transfer.{
  AsyncUsb, Completion, Direction, Transfer, TransferControl, resubmit, transfer_cancelled,
}
use libsgftdi.Async.Write.{write_data_cb}
use libsgftdi.Async.Wait.{Waiting, transfer_data_done, callback, handle}

-- A libusb that accepts every transfer and completes it sooner or later, with at least a byte, if there
-- is one, and no more than it has. `pending` is the length of the transfer in flight, if there is one,
-- and `delay` how many calls for events may still pass, or be interrupted, before it is completed. With
-- no transfer in flight a call for events may do anything.
pub record IsServing {W : Type 0} (usb : AsyncUsb W) (pending : W → Option ℕ) (delay : W → ℕ)
    : Type 0 where
  pub accepted :
      (t : Transfer) (w : W)
      → (is_negative (usb.submit_transfer t w).0 ≡ false)
        × (pending (usb.submit_transfer t w).1 ≡ some t.length)
  pub served :
      (ctx : Option ℕ) (w : W) (n : ℕ)
      → pending w ≡ some n
      → let (ret, completion, w') = usb.handle_events ctx w in
        ((is_negative ret ≡ false) ⊎ (ret ≡ minus 10))
        × (((completion ≡ none) × (pending w' ≡ pending w) × (delay w' < delay w))
            ⊎ ((e : Completion) × (completion ≡ some e)
                × (e.status ≡ 0)
                × (e.actual_length ≤ n)
                × (0 < n → 0 < e.actual_length)))

module _ {W : Type 0} (usb : AsyncUsb W) (pending : W → Option ℕ) (delay : W → ℕ)
    (serving : IsServing usb pending delay) where
  -- A write in flight, whose transfer is the one that is pending.
  pub record IsPending (s : Waiting W) : Type 0 where
    pub running : s.control.completed ≡ 0
    pub chunk : 0 < s.context.writebuffer_chunksize
    pub int : s.control.size + s.context.writebuffer_chunksize < 2147483648
    pub transfer : Transfer
    pub there : s.control.transfer ≡ some transfer
    pub writes : transfer.callback ≡ Direction.writing
    pub waits : pending s.world ≡ some transfer.length
    pub fits : s.control.offset + transfer.length ≤ s.control.size
    pub some_left : s.control.offset < s.control.size → 0 < transfer.length

  -- All is written, and libusb says so.
  pub record IsWhole (s : Waiting W) : Type 0 where
    pub over : s.control.completed ≡ 1
    pub transfer : Transfer
    pub there : s.control.transfer ≡ some transfer
    pub good : transfer.status ≡ 0
    pub all : s.control.offset ≡ s.control.size

  pub done_whole :
      (fuel : ℕ) (s : Waiting W)
      → 0 < fuel
      → IsWhole s
      → (w : W) × (transfer_data_done usb fuel s ≡ some (pos s.control.size, s.context, w))
  unfolding transfer_data_done
  done_whole zero s lo h = absurd (omega arith)
  done_whole (suc fuel) s lo h =
      (usb.free_transfer h.transfer s.world, rw (h.over, h.there, h.good, h.all) refl)

  -- One completion: it was the last, or the write goes on with less to do.
  abbrev pub Next : Waiting W → Waiting W → Type 0
  Next s s' =
      (s'.control.size ≡ s.control.size)
      × (s'.context ≡ s.context)
      × (IsWhole s'
          ⊎ (IsPending s'
              × (s.control.offset < s'.control.offset)
              × (s'.control.offset < s.control.size)))

  resubmit-IsPending :
      (c : Context) (t : Transfer) (tc : TransferControl) (w : W)
      → 0 < c.writebuffer_chunksize
      → tc.size + c.writebuffer_chunksize < 2147483648
      → tc.completed ≡ 0
      → t.status ≡ 0
      → t.callback ≡ Direction.writing
      → tc.offset + t.length ≤ tc.size
      → 0 < t.length
      → let (tc', w') = resubmit usb t tc w in
        (tc'.size ≡ tc.size)
        × (tc'.offset ≡ tc.offset)
        × IsPending (record { control = tc'; context = c; world = w' })
  unfolding resubmit
  resubmit-IsPending c t tc w chunk int running good writes fits some_left =
      let (ok, waits) = serving.accepted t w in
      let on : (t.status == transfer_cancelled) ≡ false = ground (arith, good) in
      rw (on, ok)
        (
          refl,
          refl,
          record {
            running = running;
            chunk = chunk;
            int = int;
            transfer = t;
            there = refl;
            writes = writes;
            waits = waits;
            fits = fits;
            some_left = λ h. some_left;
          },
        )

  abbrev pub stepped : Waiting W → Completion → Transfer → W → Waiting W
  stepped s e t w =
      let (tc, w') = write_data_cb usb s.context e t s.control w in
      record { control = tc; context = s.context; world = w' }

  callback-stepped :
      (s : Waiting W) (e : Completion) (t : Transfer) (w : W)
      → t.callback ≡ Direction.writing
      → callback usb t.callback e t (record s { world = w }) ≡ stepped s e t w
  unfolding callback
  callback-stepped s e t w h = ap (λ d. callback usb d e t (record s { world = w })) h

  pub handle-stepped :
      (s : Waiting W) (e : Completion) (h : IsPending s)
      → (usb.handle_events s.context.usb_ctx s.world).1 ≡ some e
      → handle usb s ≡ (
        (usb.handle_events s.context.usb_ctx s.world).0,
        stepped s e h.transfer (usb.handle_events s.context.usb_ctx s.world).2,
      )
  unfolding handle
  handle-stepped s e h is_e =
      simp (is_e, h.there)
        (ap (λ x. ((usb.handle_events s.context.usb_ctx s.world).0, x))
          (callback-stepped s e h.transfer (usb.handle_events s.context.usb_ctx s.world).2
            h.writes))

  -- A call without a completion.
  pub handle-quiet :
      (s : Waiting W)
      → (usb.handle_events s.context.usb_ctx s.world).1 ≡ none
      → handle usb s ≡ (
        (usb.handle_events s.context.usb_ctx s.world).0,
        record s { world = (usb.handle_events s.context.usb_ctx s.world).2 },
      )
  unfolding handle
  handle-quiet s is_none = simp is_none refl

  pub quiet-IsPending :
      (s : Waiting W) (w : W)
      → pending w ≡ pending s.world
      → IsPending s
      → IsPending (record s { world = w })
  quiet-IsPending s w same h = record {
    running = h.running;
    chunk = h.chunk;
    int = h.int;
    transfer = h.transfer;
    there = h.there;
    writes = h.writes;
    waits = same ∙ h.waits;
    fits = h.fits;
    some_left = h.some_left;
  }

  pub next :
      (s : Waiting W) (h : IsPending s) (e : Completion) (w : W)
      → e.status ≡ 0
      → e.actual_length ≤ h.transfer.length
      → (0 < h.transfer.length → 0 < e.actual_length)
      → Next s (stepped s e h.transfer w)
  unfolding write_data_cb
  next s h e w good few one =
      let c = s.context in
      let size = s.control.size in
      let at = s.control.offset + e.actual_length in
      elim (Bool-cases (at == size)) [
        | inl exact ↦ rw exact (
          refl,
          refl,
          inl (record {
            over = refl;
            transfer = record h.transfer { status = e.status };
            there = refl;
            good = good;
            all = (==_iff _ _).0 exact;
          }),
        )
        | inr more ↦
            let t : Transfer = record h.transfer {
              status = e.status;
              start = at;
              length = piece c.writebuffer_chunksize at size;
            } in
            let below : at < size = omega (arith, few, h.fits, differs at size more) in
            let up : s.control.offset < at =
              omega (arith, one (h.some_left (omega (arith, below)))) in
            let (size', offset', go) =
              resubmit-IsPending c t (record s.control { offset = at }) w h.chunk h.int h.running
                good h.writes (within size at c.writebuffer_chunksize below h.int)
                (nonempty size at c.writebuffer_chunksize below h.chunk h.int) in
            rw more
              (size', refl, inr (go, omega (arith, offset', up), omega (arith, offset', below)))
      ]
    where
      differs : (a b : ℕ) → (a == b) ≡ false → a ≢ b
      differs a b h = ground arith

      within :
          (size at chunk : ℕ)
          → at < size
          → size + chunk < 2147483648
          → at + piece chunk at size ≤ size
      within size at chunk h int = ground (arith, piece_plain chunk at size (omega (arith, h, int)))

      nonempty :
          (size at chunk : ℕ)
          → at < size
          → 0 < chunk
          → size + chunk < 2147483648
          → 0 < piece chunk at size
      nonempty size at chunk h lo int =
          ground (arith, piece_plain chunk at size (omega (arith, h, int)))
