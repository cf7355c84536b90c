-- ===== src/Tests/Transfers.antt =====
-- Reads and writes on the bench.
use libsgftdi.Base.{ℕ, ◌≡◌, refl, ◌<◌, arith, some}
use libsgftdi.Control.Wire.{system}
use libsgftdi.Read.{Reading, slice, strip, read_data}
use libsgftdi.Read.Payload.{payload}
use libsgftdi.Read.Strip.{strip-payload}
use libsgftdi.Read.Transfer.{unread, Delivers}
use libsgftdi.Read.Stream.{read_data-Delivers}
use libsgftdi.Tests.Bench.{bench, opened}

read_data-Delivers_example :
    (r : Reading ℕ) × (read_data bench 5 (system opened 0)
      ≡ (some (r.code, r.out), system r.context r.world))
    × Delivers bench 5 opened 5 (unread opened) 0 r
read_data-Delivers_example = read_data-Delivers bench 5 opened 0 refl (omega arith) 5

strip-payload_example :
    let s = strip 4 2 7 (λ k. k) in
    (0 < s.actual_length) × (slice s.buffer 2 s.actual_length ≡ payload 4 (slice (λ k. k) 0 7))
strip-payload_example = strip-payload 4 7 (λ k. k) (omega arith) (omega arith)
