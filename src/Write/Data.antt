-- ===== src/Write/Data.antt =====
-- ftdi_write_data. The loop is on fuel; `none` would mean that it ran out. The size is a natural number
-- below 2^31; the chunk size is an `unsigned` that the code takes for an int.
use libsgftdi.Base.{
  ℕ, zero, suc, ◌+◌, ◌-◌, ℤ, pos, minus, is_negative, ltb_ℤ, int_of, u32, List, take, drop, length,
}
use libsgftdi.Base.{Option, none, some, ltb, if◌then◌else◌}
use libsgftdi.Context.{Context}
use libsgftdi.Usb.{Host, Sys, Function, error_return}

-- How the loop ends: the offset when all is written, or when a transfer failed.
pub data Ending : Type 0 where
  written failed : ℕ → Ending

-- `write_size`, as 32 bits: the chunk size, or what is left. The sum is that of two ints, which wraps.
abbrev pub piece : ℕ → ℕ → ℕ → ℕ
piece chunk offset size =
    if ltb_ℤ (pos size) (int_of (offset + chunk)) then size - offset else u32 chunk

-- while (offset < size). A transfer has no bytes from behind the buffer.
unfoldable pub write_loop :
    {W : Type 0} → Host W → ℕ → Context → List ℕ → ℕ → ℕ → W → Option (Ending × W)
write_loop host dev c buf zero offset w = none
write_loop host dev c buf (suc fuel) offset w =
    let size = length buf in
    let write_size = piece c.writebuffer_chunksize offset size in
    let (ret, actual_length, w') =
      host.bulk_out dev c.in_ep (take write_size (drop offset buf)) c.usb_write_timeout w in
    let next = write_loop host dev c buf fuel (offset + actual_length) w' in
    if ltb offset size
    then if is_negative ret then some (failed offset, w') else next
    else some (written offset, w)

abbrev finish : {W : Type 0} → Sys W → Option (Ending × W) → Option ℤ × Sys W
finish s none = (none, s)
finish s (some (written offset, w)) = (some (pos offset), record s { world = w })
finish s (some (failed offset, w)) =
    let (e, s') =
      error_return {A = Unit {0}} (minus 1) "usb bulk write failed" (record s { world = w }) in
    (some (minus 1), s')

abbrev no_device : {W : Type 0} → Sys W → Option ℤ × Sys W
no_device s =
    let (e, s') = error_return {A = Unit {0}} (minus 666) "USB device unavailable" s in
    (some (minus 666), s')

unfoldable pub write_data : {W : Type 0} → Host W → List ℕ → Function W (Option ℤ)
write_data host buf s = elim s.ftdi [
  | none ↦ no_device s
  | some c ↦ elim c.usb_dev [
    | none ↦ no_device s
    | some dev ↦ finish s (write_loop host dev c buf (length buf + 1) 0 s.world)
  ]
]
