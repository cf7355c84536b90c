-- ===== src/Read/Data.antt =====
-- ftdi_read_data. The loop is on fuel; `none` would mean that it ran out.
use libsgftdi.Base.{ℕ, zero, suc, ◌+◌, ◌-◌, ℤ, pos, minus, is_negative, List, [], ◌++◌, length}
use libsgftdi.Base.{Option, none, some, ltb, leb, ◌==◌, if◌then◌else◌, memcpy, bytes}
use libsgftdi.Context.{Context}
use libsgftdi.Usb.{Host, Sys, Function, error_return}
use libsgftdi.Read.Buffer.{slice, contents, strip, Stripped}

-- The result code and what has been written to the caller's buffer.
pub record Reading (W : Type 0) : Type 0 where
  pub code : ℤ
  pub out : List ℕ
  pub context : Context
  pub world : W

-- One round of the loop: it returns, or goes on with more bytes written.
pub data Round (W : Type 0) : Type 0 where
  stop : Reading W → Round W
  more : List ℕ → Context → W → Round W

abbrev pub reading : {W : Type 0} → ℤ → List ℕ → Context → W → Reading W
reading r out c w = record { code = r; out = out; context = c; world = w }

-- The stripped bytes of a transfer, handed to the caller as far as they fit.
unfoldable pub deliver : {W : Type 0} → ℕ → List ℕ → Context → W → Stripped → Round W
deliver size out c w s =
    let c = record c { readbuffer = some s.buffer; readbuffer_offset = c.readbuffer_offset + 2 } in
    let n = s.actual_length in
    let offset = length out in
    let part_size = size - offset in
    let whole = out ++ slice s.buffer c.readbuffer_offset n in
    let part = out ++ slice s.buffer c.readbuffer_offset part_size in
    let kept = record c {
      readbuffer_offset = c.readbuffer_offset + part_size;
      readbuffer_remaining = n - part_size;
    } in
    if ltb 0 n
    then if leb (offset + n) size
      then if offset + n == size
        then stop (reading (pos (offset + n)) whole c w)
        else more whole c w
      else stop (reading (pos (offset + part_size)) part kept w)
    else stop (reading (minus 127) out c w)

unfoldable pub read_round : {W : Type 0} → Host W → ℕ → ℕ → List ℕ → Context → W → Round W
read_round host dev size out c w =
    let (ret, received, w') =
      host.bulk_in dev c.out_ep c.readbuffer_chunksize c.usb_read_timeout w in
    let n = length received in
    let m = memcpy 0 (bytes received) 0 n (contents c.readbuffer) in
    let c' = record c { readbuffer = some m; readbuffer_offset = 0; readbuffer_remaining = 0 } in
    if is_negative ret
    then stop (reading ret out (record c' { error_str = some "usb bulk read failed" }) w')
    else if ltb 2 n
    then deliver size out c' w' (strip c.max_packet_size 2 n m)
    else stop (reading (pos (length out)) out c' w')

unfoldable pub read_loop :
    {W : Type 0} → Host W → ℕ → ℕ → ℕ → List ℕ → Context → W → Option (Reading W)
read_loop host dev size zero out c w = none
read_loop host dev size (suc fuel) out c w = elim (read_round host dev size out c w) [
  | stop r ↦ some r
  | more out' c' w' ↦ read_loop host dev size fuel out' c' w'
]

-- The function behind its guard, on an open device. The loop never takes more than `size` rounds.
unfoldable pub read_open : {W : Type 0} → Host W → ℕ → ℕ → Context → W → Option (Reading W)
read_open host dev size c w =
    let m = contents c.readbuffer in
    let bogus = record c { error_str = some "max_packet_size is bogus (zero)" } in
    let served = record c {
      readbuffer_remaining = c.readbuffer_remaining - size;
      readbuffer_offset = c.readbuffer_offset + size;
    } in
    if c.max_packet_size == 0
    then some (reading (minus 1) [] bogus w)
    else if leb size c.readbuffer_remaining
    then some (reading (pos size) (slice m c.readbuffer_offset size) served w)
    else read_loop host dev size (size + 1) (slice m c.readbuffer_offset c.readbuffer_remaining) c w

abbrev finish : {W : Type 0} → Sys W → Option (Reading W) → Option (ℤ × List ℕ) × Sys W
finish s none = (none, s)
finish s (some r) = (some (r.code, r.out), record { ftdi = some r.context; world = r.world })

abbrev no_device : {W : Type 0} → Sys W → Option (ℤ × List ℕ) × Sys W
no_device s =
    let (e, s') = error_return {A = Unit {0}} (minus 666) "USB device unavailable" s in
    (some (minus 666, []), s')

-- The result code and the bytes written to the caller's buffer.
unfoldable pub read_data : {W : Type 0} → Host W → ℕ → Function W (Option (ℤ × List ℕ))
read_data host size s = elim s.ftdi [
  | none ↦ no_device s
  | some c ↦ elim c.usb_dev [
    | none ↦ no_device s
    | some dev ↦ finish s (read_open host dev size c s.world)
  ]
]
