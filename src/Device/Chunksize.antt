-- ===== src/Device/Chunksize.antt =====
-- The sizes of the transfers: ftdi_write_data_set_chunksize, ftdi_read_data_set_chunksize, and what
-- reads them. The cap is that of Linux.
use libsgftdi.Base.{ℕ, ℤ, pos, minus, not, ltb, if◌then◌else◌, Option, some}
use libsgftdi.Usb.{
  Host, Function, ◌>>=◌, ◌>>◌, body, body_out, context, update, outside, pure, error_if,
}
use libsgftdi.Read.{contents}
use libsgftdi.Control.{forget_read}

module _ {W : Type 0} where
  unfoldable pub write_data_set_chunksize : ℕ → Function W ℤ
  write_data_set_chunksize chunksize = body do
    context (minus 1) "ftdi context invalid"
    update λ c. record c { writebuffer_chunksize = chunksize }
    pure (pos 0)

  unfoldable pub write_data_get_chunksize : Function W (ℤ × Option ℕ)
  write_data_get_chunksize =
      body_out do c ← context (minus 1) "ftdi context invalid"; pure c.writebuffer_chunksize

  unfoldable pub read_data_get_chunksize : Function W (ℤ × Option ℕ)
  read_data_get_chunksize =
      body_out do c ← context (minus 1) "FTDI context invalid"; pure c.readbuffer_chunksize

module _ {W : Type 0} (host : Host W) where
  unfoldable pub read_data_set_chunksize : ℕ → Function W ℤ
  read_data_set_chunksize chunksize =
      let capped = if ltb 16384 chunksize then 16384 else chunksize in
      body do
        context (minus 1) "ftdi context invalid"
        update forget_read
        granted ← outside (host.alloc capped)
        error_if (not granted) (minus 1) "out of memory for readbuffer"
        update λ c. record c {
          readbuffer = some (contents c.readbuffer);
          readbuffer_chunksize = capped;
        }
        pure (pos 0)
