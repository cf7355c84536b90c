-- ===== src/Write/Pieces.antt =====
-- The pieces that the loop of ftdi_write_data cuts its buffer into.
use libsgftdi.Base.{ℕ, zero, suc, ◌+◌, ◌-◌, ◌≤◌, ◌<◌, ◌≡◌, refl, ap, sym, ◌∙◌, inl, inr, arith}
use libsgftdi.Write.Data.{piece}
use libsgftdi.Base.{List, [], ◌∷◌, take, drop, length, length-drop}
use libsgftdi.Base.{ltb, if◌then◌else◌, Bool-cases, true, false}

pub take-all : (n : ℕ) (l : List ℕ) → length l ≤ n → take n l ≡ l
take-all zero [] h = refl
take-all zero (x ∷ l) h = absurd (omega arith)
take-all (suc n) [] h = refl
take-all (suc n) (x ∷ l) h = ap (λ t. x ∷ t) (take-all n l (omega arith))

drop-nil : (n : ℕ) → drop {A = ℕ} n [] ≡ []
drop-nil zero = refl
drop-nil (suc n) = refl

pub drop-drop : (m n : ℕ) (l : List ℕ) → drop m (drop n l) ≡ drop (n + m) l
drop-drop m zero l = ap (λ k. drop k l) (omega arith)
drop-drop m (suc n) [] = drop-nil m ∙ sym (drop-nil (suc n + m))
drop-drop m (suc n) (x ∷ l) = drop-drop m n l ∙ ap (λ k. drop k (x ∷ l)) same
  where
    same : suc (n + m) ≡ suc n + m
    same = omega arith

pub gt_of_test : (a b : ℕ) → ltb a b ≡ true → a < b
gt_of_test a b h = ground arith

pub le_of_test : (a b : ℕ) → ltb a b ≡ false → b ≤ a
le_of_test a b h = ground arith

-- Without an overflow, the size that the code computes is the chunk size or what is left.
pub piece_plain :
    (chunk offset size : ℕ)
    → offset + chunk < 2147483648
    → piece chunk offset size ≡ (if ltb size (offset + chunk) then size - offset else chunk)
piece_plain chunk offset size fits = ground arith

-- It takes as much as the chunk size does.
pub write_size-take :
    (buf : List ℕ) (offset chunk : ℕ)
    → offset + chunk < 2147483648
    → take (piece chunk offset (length buf)) (drop offset buf) ≡ take chunk (drop offset buf)
write_size-take buf offset chunk fits =
    rw (piece_plain chunk offset (length buf) fits)
      (elim (Bool-cases (ltb (length buf) (offset + chunk))) [
        | inl last ↦ rw last (
            take-all (length buf - offset) (drop offset buf) (omega (arith, length-drop offset buf))
            ∙ sym (
                take-all chunk (drop offset buf)
                  (omega (arith, length-drop offset buf, gt_of_test _ _ last))))
        | inr more ↦ rw more refl
      ])
