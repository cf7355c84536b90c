-- ===== src/Read/Buffer.antt =====
-- The read buffer in memory, and the loop of ftdi_read_data and ftdi_read_data_cb that closes the gaps
-- left by the status bytes.
use libsgftdi.Base.{ℕ, zero, suc, ◌+◌, ◌-◌, ◌*◌, ◌/◌, ◌%◌, List, [], ◌∷◌, ltb, if◌then◌else◌}
use libsgftdi.Base.{memmove, Option, none, some}

-- The `n` bytes of a buffer from `start` on.
abbrev pub slice : (ℕ → ℕ) → ℕ → ℕ → List ℕ
slice m start zero = []
slice m start (suc n) = m start ∷ slice m (start + 1) n

-- The malloc'ed buffer. Its content before the first transfer is never read.
abbrev pub contents : Option (ℕ → ℕ) → ℕ → ℕ
contents none = λ k. 0
contents (some m) = m

-- for (; i < num_of_chunks; i++) memmove(...), with `rounds` left.
unfoldable pub compact : ℕ → ℕ → ℕ → ℕ → (ℕ → ℕ) → ℕ → ℕ
compact packet_size offset zero i m = m
compact packet_size offset (suc rounds) i m =
    compact packet_size offset rounds (i + 1)
      (memmove (offset + (packet_size - 2) * i) (offset + packet_size * i) (packet_size - 2) m)

-- The buffer with its gaps closed, and the number of bytes that are left.
pub record Stripped : Type 0 where
  pub buffer : ℕ → ℕ
  pub actual_length : ℕ

-- What is done with a transfer of more than two bytes; `offset` is already past the first status.
unfoldable pub strip : ℕ → ℕ → ℕ → (ℕ → ℕ) → Stripped
strip packet_size offset received m =
    let num_of_chunks = received / packet_size in
    let chunk_remains = received % packet_size in
    let actual_length = received - 2 in
    let moved = compact packet_size offset (num_of_chunks - 1) 1 m in
    if ltb (packet_size - 2) actual_length
    then if ltb 2 chunk_remains
      then record {
        buffer =
            memmove (offset + (packet_size - 2) * num_of_chunks)
              (offset + packet_size * num_of_chunks) (chunk_remains - 2) moved;
        actual_length = actual_length - 2 * num_of_chunks;
      }
      else record {
        buffer = moved;
        actual_length = actual_length - (2 * (num_of_chunks - 1) + chunk_remains);
      }
    else record { buffer = m; actual_length = actual_length }
