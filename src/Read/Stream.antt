-- ===== src/Read/Stream.antt =====
-- ftdi_read_data hands over the payload of what the device sends, whole and in order.
use mathlib.Core.List.{append-nil}
use libsgftdi.Base.{ℕ, ◌+◌, ◌-◌, ◌≤◌, ◌<◌, ◌≡◌, refl, ap, sym, ◌∙◌, inl, inr}
use libsgftdi.Base.{arith, [], leb, ◌==◌, Bool-cases}
use libsgftdi.Base.{none, some, pos, false}
use libsgftdi.Context.{Context}
use libsgftdi.Usb.{Host}
use libsgftdi.Read.Buffer.{slice, contents}
use libsgftdi.Read.Data.{Reading, reading}
use libsgftdi.Read.Data.{read_open, read_data}
use libsgftdi.Control.Wire.{system}
use libsgftdi.Read.Payload.{length-slice, slice-append, slice_at}
use libsgftdi.Read.Transfer.{unread, Delivers, finished}
use libsgftdi.Read.Deliver.{wanted_of_test}
use libsgftdi.Read.Loop.{read_loop-Ends}

module _ {W : Type 0} (host : Host W) (dev : ℕ) (c : Context) (w : W)
    (is_open : c.usb_dev ≡ some dev) (lo : 2 < c.max_packet_size) where
  served :
      (size : ℕ)
      → size ≤ c.readbuffer_remaining
      → Delivers host dev c size (unread c) w (
          reading
            (pos size)
            (slice (contents c.readbuffer) c.readbuffer_offset size)
            (record c {
              readbuffer_remaining = c.readbuffer_remaining - size;
              readbuffer_offset = c.readbuffer_offset + size;
            })
            w)
  served size h = record {
    payloads = [];
    error = none;
    transfers = finished;
    complete =
        sym (
          slice-append (contents c.readbuffer) c.readbuffer_offset size
            (c.readbuffer_remaining - size))
        ∙ slice_at (contents c.readbuffer) refl (omega arith)
        ∙ sym (append-nil (unread c));
    code = ap pos (sym (length-slice _ c.readbuffer_offset size));
    bounded = omega (arith, length-slice (contents c.readbuffer) c.readbuffer_offset size);
  }

  read_open-Delivers :
      (size : ℕ)
      → (r : Reading W) × (read_open host dev size c w ≡ some r)
        × Delivers host dev c size (unread c) w r
  unfolding read_open
  read_open-Delivers size =
      let sane : (c.max_packet_size == 0) ≡ false = ground arith in
      elim (Bool-cases (leb size c.readbuffer_remaining)) [
        | inl enough ↦ rw (sane, enough) (_, refl, served size (ground arith))
        | inr short ↦
            rw (sane, short)
              (read_loop-Ends host dev size c lo (size + 1) (unread c) c.readbuffer
                c.readbuffer_offset c.readbuffer_remaining w
                (rw
                  (length-slice (contents c.readbuffer) c.readbuffer_offset c.readbuffer_remaining)
                  (wanted_of_test _ _ short))
                (omega arith))
      ]

  -- On an open device with packets of more than two bytes ftdi_read_data always returns. The
  -- bytes that it delivers, followed by those that it keeps for later, are those that it had kept
  -- before followed by the payload of its transfers: none is lost, repeated or moved, and no status
  -- byte is among them. It delivers at most `size`, and its code is their number, or the error of
  -- the transfer that failed.
  pub read_data-Delivers :
      (size : ℕ)
      → (r : Reading W) × (read_data host size (system c w)
          ≡ (some (r.code, r.out), system r.context r.world))
        × Delivers host dev c size (unread c) w r
  unfolding read_data
  read_data-Delivers size = let (r, e, d) = read_open-Delivers size in (r, rw (is_open, e), d)
