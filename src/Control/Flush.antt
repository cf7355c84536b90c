-- ===== src/Control/Flush.antt =====
-- Reset and flush (src/ftdi.c).
use libsgftdi.Base.{ℤ, pos, minus, is_negative}
use libsgftdi.Context.{Context}
use libsgftdi.Usb.{Host, Function, ◌>>=◌, ◌>>◌, body, call, update, pure, return_if, error_if}
use libsgftdi.Usb.{opened, vendor_out}

-- Invalidate data in the readbuffer
abbrev pub forget_read : Context → Context
forget_read c = record c { readbuffer_offset = 0; readbuffer_remaining = 0 }

module _ {W : Type 0} (host : Host W) where
  unfoldable pub usb_reset : Function W ℤ
  usb_reset = body do
    (c, dev) ← opened (minus 2) "USB device unavailable"
    r ← vendor_out host c dev 0 0 c.index
    error_if (is_negative r) (minus 1) "FTDI reset failed"
    update forget_read
    pure (pos 0)

  unfoldable pub tciflush : Function W ℤ
  tciflush = body do
    (c, dev) ← opened (minus 2) "USB device unavailable"
    r ← vendor_out host c dev 0 2 c.index
    error_if (is_negative r) (minus 1) "FTDI purge of RX buffer failed"
    update forget_read
    pure (pos 0)

  unfoldable pub usb_purge_rx_buffer : Function W ℤ
  usb_purge_rx_buffer = body do
    (c, dev) ← opened (minus 2) "USB device unavailable"
    r ← vendor_out host c dev 0 1 c.index
    error_if (is_negative r) (minus 1) "FTDI purge of RX buffer failed"
    update forget_read
    pure (pos 0)

  unfoldable pub tcoflush : Function W ℤ
  tcoflush = body do
    (c, dev) ← opened (minus 2) "USB device unavailable"
    r ← vendor_out host c dev 0 1 c.index
    error_if (is_negative r) (minus 1) "FTDI purge of TX buffer failed"
    pure (pos 0)

  unfoldable pub usb_purge_tx_buffer : Function W ℤ
  usb_purge_tx_buffer = body do
    (c, dev) ← opened (minus 2) "USB device unavailable"
    r ← vendor_out host c dev 0 2 c.index
    error_if (is_negative r) (minus 1) "FTDI purge of TX buffer failed"
    pure (pos 0)

  unfoldable pub tcioflush : Function W ℤ
  tcioflush = body do
    opened (minus 3) "USB device unavailable"
    result ← call tcoflush
    return_if (is_negative result) (minus 1)
    result ← call tciflush
    return_if (is_negative result) (minus 2)
    pure (pos 0)

  unfoldable pub usb_purge_buffers : Function W ℤ
  usb_purge_buffers = body do
    opened (minus 3) "USB device unavailable"
    result ← call usb_purge_rx_buffer
    return_if (is_negative result) (minus 1)
    result ← call usb_purge_tx_buffer
    return_if (is_negative result) (minus 2)
    pure (pos 0)
