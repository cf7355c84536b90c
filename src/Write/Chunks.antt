-- ===== src/Write/Chunks.antt =====
-- What a write promises: the chunks that the device takes, one behind the other.
use libsgftdi.Base.{ℕ, ◌≤◌, ◌<◌, ◌≡◌, ℤ, is_negative, List, [], ◌∷◌, ◌++◌, take, drop, length}
use libsgftdi.Base.{true, false}
use libsgftdi.Context.{Context}
use libsgftdi.Usb.{Host}

module _ {W : Type 0} (host : Host W) (dev : ℕ) (c : Context) where
  -- The answer to the offer of the next chunk of what is left: the code and the number of bytes
  -- that the device has taken.
  abbrev pub offer : List ℕ → W → ℤ × ℕ × W
  offer rest w = host.bulk_out dev c.in_ep (take c.writebuffer_chunksize rest) c.usb_write_timeout w

  -- Offers from one state of the outside world to another, for what is left to write: the bytes
  -- that the device took, in order, and those that it did not take because the last offer failed.
  pub data Offers : W → List ℕ → List ℕ → List ℕ → W → Type 0 where
    all_taken : {w : W} → Offers w [] [] [] w
    refused :
        (w : W) (x : ℕ) (rest : List ℕ)
        → is_negative (offer (x ∷ rest) w).0 ≡ true
        → Offers w (x ∷ rest) [] (x ∷ rest) (offer (x ∷ rest) w).2
    taken :
        (w : W) (x : ℕ) (rest : List ℕ) {l left : List ℕ} {w' : W}
        → is_negative (offer (x ∷ rest) w).0 ≡ false
        → Offers (offer (x ∷ rest) w).2 (drop (offer (x ∷ rest) w).1 (x ∷ rest)) l left w'
        → Offers w (x ∷ rest) (take (offer (x ∷ rest) w).1 (x ∷ rest) ++ l) left w'

-- A transfer that does not fail takes at least a byte, and none that was not offered.
abbrev pub IsProgressing : {W : Type 0} → Host W → Type 0
IsProgressing {W} host =
    (dev ep timeout : ℕ) (l : List ℕ) (w : W)
    → 0 < length l
    → is_negative (host.bulk_out dev ep l timeout w).0 ≡ false
    → (0 < (host.bulk_out dev ep l timeout w).1) × ((host.bulk_out dev ep l timeout w).1 ≤ length l)
