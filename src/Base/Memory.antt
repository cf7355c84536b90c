-- ===== src/Base/Memory.antt =====
-- A buffer of bytes, or an array of ints, as a function from the index, with the copies of <string.h>.
use Prim.Native.Nat.{ℕ, ◌+◌, ◌-◌}
use mathlib.Core.Bool.{◌&&◌}
use mathlib.Core.List.{List}
use libsgftdi.Base.Tests.{ltb, leb, ◌==◌, if◌then◌else◌}
use libsgftdi.Base.Lists.{get_or}

module _ {ℓ} {A : Type ℓ} where
  -- m[i] = v
  abbrev pub store : ℕ → A → (ℕ → A) → ℕ → A
  store i v m k = if k == i then v else m k

  -- memmove(m + dst, m + src, n), which reads all before it writes
  abbrev pub memmove : ℕ → ℕ → ℕ → (ℕ → A) → ℕ → A
  memmove dst src n m k = if leb dst k && ltb k (dst + n) then m (src + (k - dst)) else m k

  -- memcpy(m + dst, from + src, n) between two buffers
  abbrev pub memcpy : ℕ → (ℕ → A) → ℕ → ℕ → (ℕ → A) → ℕ → A
  memcpy dst from src n m k = if leb dst k && ltb k (dst + n) then from (src + (k - dst)) else m k

  -- memset(m + dst, v, n)
  abbrev pub memset : ℕ → A → ℕ → (ℕ → A) → ℕ → A
  memset dst v n m k = if leb dst k && ltb k (dst + n) then v else m k

-- The bytes of a list as a buffer, with zeros behind them.
abbrev pub bytes : List ℕ → ℕ → ℕ
bytes l k = get_or l k 0
