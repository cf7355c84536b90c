-- ===== src/Write/Whole.antt =====
-- ftdi_write_data offers the bytes of its buffer once and in order, and ends.
use libsgftdi.Base.{ℕ, ◌+◌, ◌<◌, ◌≡◌, ◌⊎◌}
use libsgftdi.Base.{List, [], ◌++◌, length}
use libsgftdi.Base.{Option, some, ℤ, pos, minus}
use libsgftdi.Context.{Context}
use libsgftdi.Usb.{Host, Sys}
use libsgftdi.Write.Data.{Ending, write_loop}
use libsgftdi.Write.Chunks.{Offers, IsProgressing}

module _ {W : Type 0} (host : Host W) (go : IsProgressing host) (dev : ℕ) (c : Context) (w : W)
    (is_open : c.usb_dev ≡ some dev) (some_chunk : 0 < c.writebuffer_chunksize) where
  -- What a write returns, and what the device has taken of the bytes `buf` then.
  abbrev pub Writes : List ℕ → Option ℤ × Sys W → Type 0
  Writes buf r =
      ((r.0 ≡ some (pos (length buf)))
        × (r.1.ftdi ≡ some c)
        × Offers host dev c w buf buf [] r.1.world)
      ⊎ ((r.0 ≡ some (minus 1))
          × (r.1.ftdi ≡ some (record c { error_str = some "usb bulk write failed" }))
          × ((l : List ℕ) × (left : List ℕ) × Offers host dev c w buf l left r.1.world
              × (l ++ left ≡ buf)))

  abbrev Runs : List ℕ → Ending × W → Type 0
  Runs buf r = write_loop host dev c buf (length buf + 1) 0 w ≡ some r
