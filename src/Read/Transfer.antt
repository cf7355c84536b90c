-- ===== src/Read/Transfer.antt =====
-- What a read promises: transfers, and what it delivers of their payload.
use libsgftdi.Base.{ℕ, ◌≤◌, ◌≡◌}
use libsgftdi.Base.{List, [], ◌++◌, length}
use libsgftdi.Base.{Option, none, some, ℤ, pos, is_negative, true, false}
use libsgftdi.Context.{Context}
use libsgftdi.Usb.{Host}
use libsgftdi.Read.Buffer.{slice, contents}
use libsgftdi.Read.Data.{Reading}
use libsgftdi.Read.Payload.{payload}

-- What was received and stripped but not handed over yet.
abbrev pub unread : Context → List ℕ
unread c = slice (contents c.readbuffer) c.readbuffer_offset c.readbuffer_remaining

-- The result code of a read that has delivered `out`, where `e` is the failure of the last transfer.
abbrev pub code_of : Option ℤ → List ℕ → ℤ
code_of none out = pos (length out)
code_of (some e) out = e

module _ {W : Type 0} (host : Host W) (dev : ℕ) (c : Context) where
  -- The answer of the device to one bulk read with the settings of `c`.
  abbrev pub transfer : W → ℤ × List ℕ × W
  transfer w = host.bulk_in dev c.out_ep c.readbuffer_chunksize c.usb_read_timeout w

  -- Transfers from one state of the outside world to another: the payload that they carried, in
  -- order, and the error of the last one, if it failed.
  pub data Transfers : W → List ℕ → Option ℤ → W → Type 0 where
    finished : {w : W} → Transfers w [] none w
    failed :
        (w : W)
        → is_negative (transfer w).0 ≡ true
        → Transfers w [] (some (transfer w).0) (transfer w).2
    received :
        (w : W) {l : List ℕ} {e : Option ℤ} {w' : W}
        → is_negative (transfer w).0 ≡ false
        → Transfers (transfer w).2 l e w'
        → Transfers w (payload c.max_packet_size (transfer w).1 ++ l) e w'

  -- `r` is the end of a read that wanted `size` bytes and had delivered `out` at `w`.
  pub record Delivers (size : ℕ) (out : List ℕ) (w : W) (r : Reading W) : Type 0 where
    pub payloads : List ℕ
    pub error : Option ℤ
    pub transfers : Transfers w payloads error r.world
    pub complete : r.out ++ unread r.context ≡ out ++ payloads
    pub code : r.code ≡ code_of error r.out
    pub bounded : length r.out ≤ size
