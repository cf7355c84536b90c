-- ===== src/Read/Deliver.antt =====
-- What handing over one stripped transfer does.
use mathlib.Core.List.{append-nil, append_assoc}
use libsgftdi.Base.{ℕ, ◌+◌, ◌-◌, ◌≤◌, ◌<◌, ◌≡◌, refl, ap, sym, ◌∙◌, inl, inr}
use libsgftdi.Base.{arith, List, ◌++◌, length, length-append, ltb, leb, ◌==◌, Bool-cases}
use libsgftdi.Base.{some, pos, true, false}
use libsgftdi.Base.{==_iff}
use libsgftdi.Context.{Context}
use libsgftdi.Read.Buffer.{slice, Stripped}
use libsgftdi.Read.Data.{Round, stop, more, deliver}
use libsgftdi.Read.Payload.{length-slice, slice-append, slice_at}
use libsgftdi.Read.Transfer.{unread}

-- `size` bytes are wanted, `out` has been delivered: what handing over the bytes `l` comes to.
abbrev pub Handed : {W : Type 0} → ℕ → List ℕ → List ℕ → Context → W → Round W → Type 0
Handed size out l c w (stop r) =
    (r.world ≡ w)
    × (r.out ++ unread r.context ≡ out ++ l)
    × (r.code ≡ pos (length r.out))
    × (length r.out ≡ size)
Handed size out l c w (more out' c' w') =
    (w' ≡ w)
    × (out' ≡ out ++ l)
    × (length out' < size)
    × (length out < length out')
    × ((m : ℕ → ℕ) × (c' ≡ record c { readbuffer = some m; readbuffer_offset = 2 }))

-- The context of a transfer that has just been received into `m`.
abbrev pub received_in : (ℕ → ℕ) → Context → Context
received_in m c = record c { readbuffer = some m; readbuffer_offset = 0; readbuffer_remaining = 0 }

length-part : (out : List ℕ) (m : ℕ → ℕ) (n : ℕ) → length (out ++ slice m 2 n) ≡ length out + n
length-part out m n =
    length-append out (slice m 2 n) ∙ ap (λ k. length out + k) (length-slice m 2 n)

part_and_rest :
    (out : List ℕ) (m : ℕ → ℕ) (n k : ℕ)
    → k ≤ n
    → (out ++ slice m 2 k) ++ slice m (2 + k) (n - k) ≡ out ++ slice m 2 n
part_and_rest out m n k h =
    append_assoc out (slice m 2 k) (slice m (2 + k) (n - k))
    ∙ ap (λ l. out ++ l) (sym (slice-append m 2 k (n - k)) ∙ slice_at m refl (omega arith))

pub lt_of_tests : (a b : ℕ) → leb a b ≡ true → (a == b) ≡ false → a < b
lt_of_tests a b h k = ground arith

pub rest-le : (a n b : ℕ) → leb (a + n) b ≡ false → b - a ≤ n
rest-le a n b h = ground arith

pub wanted_of_test : (a b : ℕ) → leb a b ≡ false → b < a
wanted_of_test a b h = ground arith

pub gt_of_test : (a b : ℕ) → ltb a b ≡ true → a < b
gt_of_test a b h = ground arith

pub le_of_test : (a b : ℕ) → ltb a b ≡ false → b ≤ a
le_of_test a b h = ground arith

pub deliver-Handed :
    {W : Type 0} (size : ℕ) (out : List ℕ) (m : ℕ → ℕ) (c : Context) (w : W) (s : Stripped)
    → 0 < s.actual_length
    → length out < size
    → Handed size out
        (slice s.buffer 2 s.actual_length)
        (received_in m c)
        w
        (deliver size out (received_in m c) w s)
unfolding deliver
deliver-Handed size out m c w s left wanted =
    let some_left : ltb 0 s.actual_length ≡ true = ground arith in
    let whole = length-part out s.buffer s.actual_length in
    let part = length-part out s.buffer (size - length out) in
    elim (Bool-cases (leb (length out + s.actual_length) size)) [
      | inl fits ↦ elim (Bool-cases (length out + s.actual_length == size)) [
        | inl exact ↦
            rw (some_left, fits, exact)
              (refl, append-nil _, ap pos (sym whole), omega (arith, (==_iff _ _).0 exact, whole))
        | inr on ↦
            rw (some_left, fits, on)
              (
                refl,
                refl,
                rw whole (lt_of_tests _ _ fits on),
                omega (arith, whole),
                (s.buffer, refl),
              )
      ]
      | inr over ↦
          rw (some_left, over)
            (
              refl,
              part_and_rest out s.buffer s.actual_length (size - length out) (rest-le _ _ _ over),
              ap pos (sym part),
              omega (arith, part),
            )
    ]
