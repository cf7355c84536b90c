-- ===== src/Write/Loop.antt =====
-- The loop of ftdi_write_data ends, with offers of all its bytes.
use Prim.Native.Nat.{min}
use mathlib.Core.List.{append_assoc}
use libsgftdi.Base.{
  ℕ, zero, suc, ◌+◌, ◌-◌, ◌≤◌, ◌<◌, ◌≡◌, refl, ap, sym, ◌∙◌, inl, inr, subst, arith,
}
use libsgftdi.Base.{
  List, [], ◌∷◌, ◌++◌, take, drop, length, length-take, length-drop, take-append-drop,
}
use libsgftdi.Base.{drop-all, ltb, Bool-cases, true, false}
use libsgftdi.Base.{some, is_negative}
use libsgftdi.Context.{Context}
use libsgftdi.Usb.{Host}
use libsgftdi.Write.Data.{Ending, written, failed, write_loop}
use libsgftdi.Write.Chunks.{offer, Offers, all_taken, refused, taken, IsProgressing}
use libsgftdi.Write.Pieces.{drop-drop, gt_of_test, le_of_test, write_size-take}

module _ {W : Type 0} (host : Host W) (dev : ℕ) (c : Context) (go : IsProgressing host)
    (some_chunk : 0 < c.writebuffer_chunksize) (buf : List ℕ)
    (fits : length buf + c.writebuffer_chunksize < 2147483648) where
  -- The code, what was taken and what is left, for an ending of the loop.
  abbrev pub Ends : ℕ → W → Ending × W → Type 0
  Ends offset w (written n, w') =
      (n ≡ length buf) × Offers host dev c w (drop offset buf) (drop offset buf) [] w'
  Ends offset w (failed n, w') =
      (l : List ℕ) × Offers host dev c w (drop offset buf) l (drop n buf) w'
      × (l ++ drop n buf ≡ drop offset buf)

  ended :
      (offset : ℕ) (w : W)
      → length buf ≤ offset
      → offset ≤ length buf
      → Ends offset w (written offset, w)
  ended offset w ge le = rw (drop-all offset buf ge) (omega arith, all_taken)

  more_taken :
      (rest l left : List ℕ) (w w' : W)
      → 0 < length rest
      → is_negative (offer host dev c rest w).0 ≡ false
      → Offers host dev c
          (offer host dev c rest w).2
          (drop (offer host dev c rest w).1 rest)
          l
          left
          w'
      → Offers host dev c w rest (take (offer host dev c rest w).1 rest ++ l) left w'
  more_taken [] l left w w' h good o = absurd (omega arith)
  more_taken (x ∷ rest) l left w w' h good o = taken w x rest good o

  none_taken :
      (rest : List ℕ) (w : W)
      → 0 < length rest
      → is_negative (offer host dev c rest w).0 ≡ true
      → Offers host dev c w rest [] rest (offer host dev c rest w).2
  none_taken [] w h bad = absurd (omega arith)
  none_taken (x ∷ rest) w h bad = refused w x rest bad

  int_sum :
      (offset : ℕ) → ltb offset (length buf) ≡ true → offset + c.writebuffer_chunksize < 2147483648
  int_sum offset h = omega (arith, fits, gt_of_test _ _ h)

  -- One round of the loop is an offer of what is left.
  write_loop-refused :
      (fuel offset : ℕ) (w : W)
      → ltb offset (length buf) ≡ true
      → is_negative (offer host dev c (drop offset buf) w).0 ≡ true
      → write_loop host dev c buf (suc fuel) offset w
        ≡ some (failed offset, (offer host dev c (drop offset buf) w).2)
  unfolding write_loop
  write_loop-refused fuel offset w h bad =
      rw (h, write_size-take buf offset c.writebuffer_chunksize (int_sum offset h), bad) refl

  write_loop-taken :
      (fuel offset : ℕ) (w : W)
      → ltb offset (length buf) ≡ true
      → is_negative (offer host dev c (drop offset buf) w).0 ≡ false
      → write_loop host dev c buf (suc fuel) offset w
        ≡ write_loop host dev c buf fuel
            (offset + (offer host dev c (drop offset buf) w).1)
            (offer host dev c (drop offset buf) w).2
  unfolding write_loop
  write_loop-taken fuel offset w h good =
      rw (h, write_size-take buf offset c.writebuffer_chunksize (int_sum offset h), good) refl

  write_loop-end :
      (fuel offset : ℕ) (w : W)
      → ltb offset (length buf) ≡ false
      → write_loop host dev c buf (suc fuel) offset w ≡ some (written offset, w)
  unfolding write_loop
  write_loop-end fuel offset w h = rw (h, write_loop) refl

  abbrev Result : ℕ → ℕ → W → Type 0
  Result fuel offset w =
      (r : Ending × W) × (write_loop host dev c buf fuel offset w ≡ some r) × Ends offset w r

  -- A chunk that was taken, and an ending of the rest.
  one_more :
      (offset : ℕ) (w : W) (r : Ending × W)
      → 0 < length (drop offset buf)
      → is_negative (offer host dev c (drop offset buf) w).0 ≡ false
      → Ends
          (offset + (offer host dev c (drop offset buf) w).1)
          (offer host dev c (drop offset buf) w).2
          r
      → Ends offset w r
  one_more offset w (written k, w'') h good (all, o) =
      let rest = drop offset buf in
      let n = (offer host dev c rest w).1 in
      (
        all,
        subst (λ l. Offers host dev c w rest l [] w'') (take-append-drop n rest)
            (more_taken rest (drop n rest) [] w w'' h good (rw (drop-drop n offset buf) o)),
      )
  one_more offset w (failed k, w'') h good (l, o, e) =
      let rest = drop offset buf in
      let n = (offer host dev c rest w).1 in
      (
        take n rest ++ l,
        more_taken rest l (drop k buf) w w'' h good (rw (drop-drop n offset buf) o),
        append_assoc (take n rest) l (drop k buf)
            ∙ ap (λ t. take n rest ++ t) (e ∙ sym (drop-drop n offset buf))
            ∙ take-append-drop n rest,
      )

  on_offer :
      (fuel offset : ℕ) (w : W)
      → ltb offset (length buf) ≡ true
      → ((n : ℕ) (w' : W) → 0 < n → offset + n ≤ length buf → Result fuel (offset + n) w')
      → Result (suc fuel) offset w
  on_offer fuel offset w h next =
      let rest = drop offset buf in
      let chunk = take c.writebuffer_chunksize rest in
      let left : 0 < length rest = omega (arith, length-drop offset buf, gt_of_test _ _ h) in
      elim (Bool-cases (is_negative (offer host dev c rest w).0)) [
        | inl bad ↦ (
          (failed offset, (offer host dev c rest w).2),
          write_loop-refused fuel offset w h bad,
          ([], none_taken rest w left bad, refl),
        )
        | inr good ↦
            let size : length chunk ≡ min c.writebuffer_chunksize (length rest) =
              length-take _ rest in
            let (some_taken, fit) = go dev c.in_ep c.usb_write_timeout chunk w (omega arith) good in
            let (r, e, ends) =
              next (offer host dev c rest w).1 (offer host dev c rest w).2 some_taken
                (omega (arith, length-drop offset buf, gt_of_test _ _ h)) in
            (r, write_loop-taken fuel offset w h good ∙ e, one_more offset w r left good ends)
      ]

  pub write_loop-Ends :
      (fuel offset : ℕ) (w : W)
      → offset ≤ length buf
      → length buf - offset < fuel
      → (r : Ending × W) × (write_loop host dev c buf fuel offset w ≡ some r) × Ends offset w r
  write_loop-Ends zero offset w h enough = absurd (omega arith)
  write_loop-Ends (suc fuel) offset w h enough = elim (Bool-cases (ltb offset (length buf))) [
    | inr end ↦ (
      (written offset, w),
      write_loop-end fuel offset w end,
      ended offset w (le_of_test _ _ end) h,
    )
    | inl on ↦
        on_offer fuel offset w on
          λ n w' lo hi. write_loop-Ends fuel (offset + n) w' hi (omega arith)
  ]
