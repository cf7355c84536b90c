-- ===== src/Stream/Fit.antt =====
-- The streams that the constructor of FtdiStream lets pass.
use libsgftdi.Base.{
  ℕ, pos, eq_ℤ, ◌≤◌, ◌<◌, ◌≡◌, ◌⊎◌, ◌||◌, refl, ap, sym, List, [], ◌∷◌, Bool, false, not, Option,
  arith, Bool-cases, inl, inr, String, ◌∙◌,
}
use libsgftdi.Context.{Context}
use libsgftdi.Stream.State.{
  Entry, Pool, StreamHost, Outcome, done, thrown, Method, ◌>>=◌, pure, throw_if, outside,
}
use libsgftdi.Stream.Setup.{
  check_stream, check_streams, ftdi_stream, fit_sizes, check_reading, check_writing, is_empty,
  same_context, usb_ctx_of, state_made, kept_state, checks,
}
use libsgftdi.Stream.Passed.{
  same_context-eq, smaller-le, bind-done, check_reading-done, check_writing-done,
}

module _ {W : Type 0} where
  -- A stream that can be served: its context is that of the others, the packets are no larger than its
  -- own, and what it transfers has a callback, packets, and one transfer at most for writing.
  pub record Fits (usb_ctx : Option ℕ) (s : Pool W) (stream : Entry W) : Type 0 where
    pub shared : (s.contexts stream.ftdi).usb_ctx ≡ usb_ctx
    pub read_fits : s.read_packetsize ≤ (s.contexts stream.ftdi).max_packet_size
    pub write_fits : s.write_packetsize ≤ (s.contexts stream.ftdi).writebuffer_chunksize
    pub reads :
        (stream.read_transfers ≡ 0)
        ⊎ ((is_empty stream.read_callback ≡ false) × (0 < stream.read_packets_per_transfer))
    pub writes :
        (stream.write_transfers ≡ 0)
        ⊎ ((stream.write_transfers ≡ 1)
            × (is_empty stream.write_callback ≡ false)
            × (0 < stream.write_packets_per_transfer))

  abbrev pub AllFit : Option ℕ → Pool W → List (Entry W) → Type 0
  AllFit usb_ctx s [] = Unit {0}
  AllFit usb_ctx s (stream ∷ l) = Fits usb_ctx s stream × AllFit usb_ctx s l

  -- What the checks leave alone, and how they change the sizes.
  pub record Shrinks (s s' : Pool W) : Type 0 where
    pub contexts_kept : s'.contexts ≡ s.contexts
    pub streams_kept : s'.streams ≡ s.streams
    pub read_less : s'.read_packetsize ≤ s.read_packetsize
    pub write_less : s'.write_packetsize ≤ s.write_packetsize

  Shrinks-trans : (s1 s2 s3 : Pool W) → Shrinks s1 s2 → Shrinks s2 s3 → Shrinks s1 s3
  Shrinks-trans s1 s2 s3 h k = record {
    contexts_kept = k.contexts_kept ∙ h.contexts_kept;
    streams_kept = k.streams_kept ∙ h.streams_kept;
    read_less = omega (arith, h.read_less, k.read_less);
    write_less = omega (arith, h.write_less, k.write_less);
  }

  fit_sizes-Shrinks : (c : Context) (s : Pool W) → Shrinks s (fit_sizes c s)
  fit_sizes-Shrinks c s = record {
    contexts_kept = refl;
    streams_kept = refl;
    read_less = (smaller-le s.read_packetsize c.max_packet_size).0;
    write_less = (smaller-le s.write_packetsize c.writebuffer_chunksize).0;
  }

  -- Smaller packets fit as well.
  Fits-Shrinks :
      (usb_ctx : Option ℕ) (s s' : Pool W) (stream : Entry W)
      → Shrinks s s'
      → Fits usb_ctx s stream
      → Fits usb_ctx s' stream
  Fits-Shrinks usb_ctx s s' stream less fits = record {
    shared = rw less.contexts_kept fits.shared;
    read_fits = rw less.contexts_kept (omega (arith, less.read_less, fits.read_fits));
    write_fits = rw less.contexts_kept (omega (arith, less.write_less, fits.write_fits));
    reads = fits.reads;
    writes = fits.writes;
  }

  check_stream-Fits :
      (usb_ctx : Option ℕ) (stream : Entry W) (s s' : Pool W) (b : Bool)
      → check_stream usb_ctx stream s ≡ (done b, s')
      → Fits usb_ctx s' stream × Shrinks s s'
  check_stream-Fits usb_ctx stream s s' b h =
      let c = s.contexts stream.ftdi in
      let s1 = fit_sizes c s in
      elim (Bool-cases (not (same_context c.usb_ctx usb_ctx))) [
        | inl other ↦ absurd (refused (rw other at h))
        | inr good ↦
            let (reads, s2, read, rest) =
              bind-done (check_reading stream)
                (λ reads. check_writing stream >>= λ writes. pure (reads || writes)) s1
                (rw good at h) in
            let (writes, s3, written, end) =
              bind-done (check_writing stream) (λ writes. pure (reads || writes)) s2 rest in
            let (same1, reading) = check_reading-done stream s1 s2 reads read in
            let (same2, writing) = check_writing-done stream s2 s3 writes written in
            let here : s' ≡ s1 = sym (ap (λ r. r.1) end) ∙ same2 ∙ same1 in
            rw here (
              record {
                shared = same_context-eq c.usb_ctx usb_ctx good;
                read_fits = (smaller-le s.read_packetsize c.max_packet_size).1;
                write_fits = (smaller-le s.write_packetsize c.writebuffer_chunksize).1;
                reads = reading;
                writes = writing;
              },
              fit_sizes-Shrinks c s,
            )
      ]
    where
      refused :
          {A : Type 0} {str : String} {s1 s2 : Pool W} {a : A}
          → Path (Outcome A × Pool W) (thrown str, s1) (done a, s2)
          → ⊥
      refused h = cc

  check_streams-AllFit :
      (usb_ctx : Option ℕ) (l : List (Entry W)) (are_some : Bool) (s s' : Pool W) (b : Bool)
      → check_streams usb_ctx l are_some s ≡ (done b, s')
      → AllFit usb_ctx s' l × Shrinks s s'
  unfolding check_streams
  check_streams-AllFit usb_ctx [] are_some s s' b h = rw (← ap (λ r. r.1) h) (
    tt,
    record {
      contexts_kept = refl;
      streams_kept = refl;
      read_less = omega arith;
      write_less = omega arith;
    },
  )
  check_streams-AllFit usb_ctx (stream ∷ l) are_some s s' b h =
      let (more, s1, first, rest) =
        bind-done (check_stream usb_ctx stream) (λ more. check_streams usb_ctx l (are_some || more))
          s h in
      let (fits, less) = check_stream-Fits usb_ctx stream s s1 more first in
      let (all, less') = check_streams-AllFit usb_ctx l (are_some || more) s1 s' b rest in
      ((Fits-Shrinks usb_ctx s1 s' stream less' fits, all), Shrinks-trans s s1 s' less less')

  AllFit-Shrinks :
      (usb_ctx : Option ℕ) (s s' : Pool W) (l : List (Entry W))
      → Shrinks s s'
      → AllFit usb_ctx s l
      → AllFit usb_ctx s' l
  AllFit-Shrinks usb_ctx s s' [] less all = tt
  AllFit-Shrinks usb_ctx s s' (stream ∷ l) less (fits, all) =
      (Fits-Shrinks usb_ctx s s' stream less fits, AllFit-Shrinks usb_ctx s s' l less all)

module _ {W : Type 0} (host : StreamHost W) where
  abbrev ended : Option ℕ → Bool → Method W (Unit {0})
  ended usb_ctx are_some =
      throw_if (not are_some) "No streams have either reading or writing transfers" >>= λ t.
      outside (host.handles_timeouts usb_ctx) >>= λ r.
      throw_if (not (eq_ℤ r (pos 1))) "Unable to handle timeouts in libusb"

  ended-Shrinks :
      (usb_ctx : Option ℕ) (are_some : Bool) (s s' : Pool W)
      → ended usb_ctx are_some s ≡ (done tt, s')
      → Shrinks s s'
  ended-Shrinks usb_ctx are_some s s' h = ground arith

  state_made-Shrinks :
      (s s' : Pool W) (t : Unit {0}) → state_made host s ≡ (done t, s') → Shrinks s s'
  state_made-Shrinks s s' t h = ground arith

  kept_state-done :
      (r : Outcome (Unit {0}) × Pool W) (s' : Pool W)
      → kept_state host r ≡ (done tt, s')
      → r ≡ (done tt, s')
  kept_state-done (done t, s) s' h = h
  kept_state-done (thrown str, s) s' h = cc

  checks-AllFit :
      (s s' : Pool W) → checks host s ≡ (done tt, s') → AllFit (usb_ctx_of s) s' s.streams
  checks-AllFit s s' h =
      let (are_some, s1, checked, rest) =
        bind-done (check_streams (usb_ctx_of s) s.streams false) (ended (usb_ctx_of s)) s h in
      let (all, less) = check_streams-AllFit (usb_ctx_of s) s.streams false s s1 are_some checked in
      AllFit-Shrinks (usb_ctx_of s) s1 s' s.streams
        (ended-Shrinks (usb_ctx_of s) are_some s1 s' rest) all

  -- If the constructor of FtdiStream does not throw, every stream can be served with the packet sizes
  -- that it has chosen: all are on the same context of libusb, no packet is larger than the largest of
  -- any of the chips or than the write buffer of any, and a stream that reads or writes has a callback
  -- for it, packets in its transfers, and a single transfer for writing.
  pub ftdi_stream-AllFit :
      (s s' : Pool W) → ftdi_stream host s ≡ (done tt, s') → AllFit (usb_ctx_of s) s' s.streams
  unfolding ftdi_stream
  ftdi_stream-AllFit s s' h =
      let (t, s1, made, rest) =
        bind-done (state_made host) (λ t s1. kept_state host (checks host s1)) s h in
      let same = state_made-Shrinks s s1 t made in
      rw (← same.streams_kept)
        (rw (← same.contexts_kept) (checks-AllFit s1 s' (kept_state-done (checks host s1) s' rest)))
