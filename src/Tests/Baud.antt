-- ===== src/Tests/Baud.antt =====
-- Rates on the bench.
use libsgftdi.Base.{ℕ, pos, ◌≡◌, refl, arith, ◌⊎◌}
use libsgftdi.Control.Wire.{system}
use libsgftdi.Baud.{set_baudrate}
use libsgftdi.Baud.Set.{Refused, Programs, wanted, set_baudrate_lem}
use libsgftdi.Tests.Bench.{bench, opened}

set_baudrate_lem_example :
    Refused bench opened 5 0 refl (omega arith) (set_baudrate bench (pos 115200) (system opened 0))
    ⊎ ((b : ℕ) × (value : ℕ) × (index : ℕ) × (wanted (pos 115200) opened ≡ pos b)
        × Programs bench opened 5 0 refl
            (omega arith)
            b
            value
            index
            (set_baudrate bench (pos 115200) (system opened 0)))
set_baudrate_lem_example =
    set_baudrate_lem bench opened 5 0 refl (omega arith) (pos 115200) (omega arith)
