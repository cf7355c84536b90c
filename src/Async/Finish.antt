-- ===== src/Async/Finish.antt =====
-- An asynchronous write comes to its end.
use libsgftdi.Base.{
  ℕ, zero, suc, ◌+◌, ◌≤◌, ◌<◌, ◌≡◌, refl, ap₂, ◌∙◌, arith, none, some, Option, pos, ℤ, minus, eq_ℤ,
  is_negative, not, ◌&&◌, ◌⊎◌, false, ltb_ℤ, int_of, u32, if◌then◌else◌,
}
use libsgftdi.Base.{Bool-cases, inl, inr, ◌==◌, true}
use libsgftdi.Context.{Context}
use libsgftdi.Usb.{Host}
use libsgftdi.Async.Transfer.{AsyncUsb, Transfer, TransferControl, begin}
use libsgftdi.Async.Write.{write_submit, first_transfer, first_control}
use libsgftdi.Async.Sent.{write_submit-control}
use libsgftdi.Async.Wait.{Waiting, transfer_data_done, handle}
use libsgftdi.Async.Pending.{
  IsServing, IsPending, done_whole, handle-stepped, handle-quiet, quiet-IsPending, next, stepped,
}

nothing : (tc : TransferControl) → Path (Option TransferControl) none (some tc) → ⊥
nothing tc h = cc

module _ {W : Type 0} (usb : AsyncUsb W) (pending : W → Option ℕ) (delay : W → ℕ)
    (serving : IsServing usb pending delay) where
  -- The write returns its size, with enough fuel.
  abbrev pub Ends : Waiting W → Type 0
  Ends s =
      (fuel : ℕ) × (w : W) × (transfer_data_done usb fuel s
        ≡ some (pos s.control.size, s.context, w))

  -- The test for an error of libusb.
  goes_on :
      (ret : ℤ)
      → (is_negative ret ≡ false) ⊎ (ret ≡ minus 10)
      → (is_negative ret && not (eq_ℤ ret (minus 10))) ≡ false
  goes_on ret (inl fine) = rw fine refl
  goes_on ret (inr interrupted) = rw interrupted refl

  -- One round of the loop.
  one_round :
      (s s' : Waiting W) (ret : ℤ)
      → (s.control.completed == 0) ≡ true
      → handle usb s ≡ (ret, s')
      → (is_negative ret && not (eq_ℤ ret (minus 10))) ≡ false
      → s'.control.size ≡ s.control.size
      → s'.context ≡ s.context
      → Ends s'
      → Ends s
  unfolding transfer_data_done
  one_round s s' ret on step ok size' context' (fuel, w, e) =
      (suc fuel, w, rw (on, step, ok) (e ∙ ap₂ (λ n c. some (pos n, c, w)) size' context'))

  -- A call for events passes, or brings a completion after which the write has ended or goes on.
  one_call :
      (s : Waiting W)
      → IsPending usb pending delay serving s
      → ((w : W)
          → IsPending usb pending delay serving (record s { world = w })
          → delay w < delay s.world
          → Ends (record s { world = w }))
      → ((s' : Waiting W)
          → IsPending usb pending delay serving s'
          → s'.control.size ≡ s.control.size
          → s.control.offset < s'.control.offset
          → Ends s')
      → Ends s
  one_call s h quiet_on go_on =
      let (ok, way) = serving.served s.context.usb_ctx s.world h.transfer.length h.waits in
      let (ret, completion, w1) = usb.handle_events s.context.usb_ctx s.world in
      let on : (s.control.completed == 0) ≡ true = ground (arith, h.running) in
      elim way [
        | inl (is_none, same, sooner) ↦
            one_round s (record s { world = w1 }) ret on
              (handle-quiet usb pending delay serving s is_none) (goes_on ret ok) refl refl
              (quiet_on w1 (quiet-IsPending usb pending delay serving s w1 same h) sooner)
        | inr (e, is_e, good, few, one) ↦
            let s' = stepped usb pending delay serving s e h.transfer w1 in
            let (size', context', way) = next usb pending delay serving s h e w1 good few one in
            one_round s s' ret on (handle-stepped usb pending delay serving s e h is_e)
              (goes_on ret ok) size' context'
              (elim way [
                | inl whole ↦
                    let (w, e) = done_whole usb pending delay serving 1 s' (omega arith) whole in
                    (1, w, e)
                | inr (pending', up, lo) ↦ go_on s' pending' size' up
              ])
      ]

  done_pending :
      (n d : ℕ) (s : Waiting W)
      → IsPending usb pending delay serving s
      → s.control.size < n + s.control.offset
      → delay s.world ≤ d
      → Ends s
  done_pending zero d s h enough late = absurd (omega (arith, h.fits))
  done_pending (suc n) zero s h enough late =
      one_call s h (λ w h' sooner. absurd (omega (arith, sooner, late)))
        (λ s' h' size' up.
          done_pending n (delay s'.world) s' h' (omega (arith, enough, up, size')) (omega arith))
  done_pending (suc n) (suc d) s h enough late =
      one_call s h
        (λ w h' sooner.
          done_pending (suc n) d (record s { world = w }) h' enough (omega (arith, sooner, late)))
        (λ s' h' size' up.
          done_pending n (delay s'.world) s' h' (omega (arith, enough, up, size')) (omega arith))

  begin-pending :
      (t : Transfer) (tc tc' : TransferControl) (w : W)
      → (begin usb t tc w).0 ≡ some tc'
      → pending (begin usb t tc w).1 ≡ some t.length
  unfolding begin
  begin-pending t tc tc' w h = elim (Bool-cases (usb.alloc_transfer w).0) [
    | inl granted ↦
        let (ok, waits) = serving.accepted t (usb.alloc_transfer w).1 in rw (granted, ok) waits
    | inr refused ↦ absurd (nothing tc' (rw refused at h))
  ]

  write_submit-pending :
      (host : Host W) (sizeof : ℕ) (c : Context) (dev : ℕ) (buf : ℕ → ℕ) (size : ℕ) (w : W)
      (tc : TransferControl)
      → (write_submit usb host sizeof c dev buf size w).0 ≡ some tc
      → pending (write_submit usb host sizeof c dev buf size w).1
        ≡ some (first_transfer c dev size).length
  unfolding write_submit
  write_submit-pending host sizeof c dev buf size w tc h =
      elim (Bool-cases (host.alloc sizeof w).0) [
        | inl granted ↦ rw granted (
            begin-pending (first_transfer c dev size) (first_control buf size) tc _
              (rw granted at h))
        | inr refused ↦ absurd (nothing tc (rw refused at h))
      ]

  -- With a chunk size above 0 whose sum with the size fits an int, and a libusb that accepts every
  -- transfer and completes it sooner or later, with at least a byte and no more than it has, where calls
  -- for events may pass or be interrupted before: a write that ftdi_write_data_submit has begun ends,
  -- and ftdi_transfer_data_done returns the whole size, after finitely many calls for events.
  pub write_submit-transfer_data_done :
      (host : Host W) (sizeof : ℕ) (c : Context) (dev : ℕ) (buf : ℕ → ℕ) (size : ℕ) (w : W)
      → 0 < c.writebuffer_chunksize
      → size + c.writebuffer_chunksize < 2147483648
      → (tc : TransferControl) → (write_submit usb host sizeof c dev buf size w).0 ≡ some tc
      → let s : Waiting W = record {
        control = tc;
        context = c;
        world = (write_submit usb host sizeof c dev buf size w).1;
      } in
        (fuel : ℕ) × (w' : W) × (transfer_data_done usb fuel s ≡ some (pos size, c, w'))
  write_submit-transfer_data_done host sizeof c dev buf size w chunk int tc h =
      let w1 = (write_submit usb host sizeof c dev buf size w).1 in
      let control : TransferControl = record (first_control buf size) {
        transfer = some (first_transfer c dev size);
      } in
      let start : IsPending usb pending delay serving
          (record { control = control; context = c; world = w1 }) =
        record {
          running = refl;
          chunk = chunk;
          int = int;
          transfer = first_transfer c dev size;
          there = refl;
          writes = refl;
          waits = write_submit-pending host sizeof c dev buf size w tc h;
          fits = omega (arith, (first c.writebuffer_chunksize chunk int).0);
          some_left = (first c.writebuffer_chunksize chunk int).1;
        } in
      rw (write_submit-control usb host sizeof c dev buf size w tc h)
        (done_pending (size + 1) (delay w1) _ start (omega arith) (omega arith))
    where
      first :
          (chunk : ℕ)
          → 0 < chunk
          → size + chunk < 2147483648
          → let n : ℕ = (if ltb_ℤ (pos size) (int_of chunk) then size else u32 chunk) in
            (n ≤ size) × (0 < size → 0 < n)
      first chunk lo int = ground arith
