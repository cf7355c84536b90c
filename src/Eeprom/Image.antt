-- ===== src/Eeprom/Image.antt =====
-- ftdi_write_eeprom: the image of the EEPROM, word by word.
use libsgftdi.Base.{
  ℕ, zero, suc, ◌+◌, ◌*◌, ◌/◌, ℤ, pos, minus, is_negative, is_nonzero, not, ltb, ◌==◌,
}
use libsgftdi.Base.{if◌then◌else◌, u16, ◌<<<◌, pos_part, some, none}
use libsgftdi.Context.{Context, Eeprom, ChipType, zeroed}
use libsgftdi.Usb.{
  Host, Function, Action, ◌>>=◌, ◌>>◌, body, opened, pure, call, return_if, error_if,
}
use libsgftdi.Usb.{vendor_out}
use libsgftdi.Control.{usb_reset, poll_modem_status, set_latency_timer}

-- Do not try to write to reserved area
abbrev pub next_word : ChipType → ℕ → ℕ
next_word ChipType.type_230x i = if i == 0x40 then 0x50 else i
next_word _ i = i

-- *ftdi->eeprom. A NULL pointer crashes the code; here it reads as a cleared structure.
abbrev pub structure : Context → Eeprom
structure c = elim c.eeprom [ none ↦ zeroed | some e ↦ e ]

module _ {W : Type 0} (host : Host W) where
  abbrev pub write_word : Context → ℕ → ℕ → ℕ → Action W (Unit {0})
  write_word c dev usb_val i = do
    r ← vendor_out host c dev 0x91 usb_val i
    error_if (is_negative r) (minus 1) "unable to write eeprom"

  -- The loop over `i`, up to `n`. As `i` grows in every round, `n` rounds are all that it takes.
  unfoldable pub write_words : ℕ → Context → ℕ → (ℕ → ℕ) → ℕ → ℕ → Action W ℤ
  write_words zero c dev eeprom n i = pure (pos 0)
  write_words (suc rounds) c dev eeprom n i =
      let j = next_word c.chip_type i in
      let usb_val = u16 (eeprom (j * 2) + (eeprom (j * 2 + 1) <<< 8)) in
      let rest = write_words rounds c dev eeprom n (j + 1) in
      if ltb i n then write_word c dev usb_val j >> rest else pure (pos 0)

  unfoldable pub write_eeprom : Function W ℤ
  write_eeprom = body do
    (c, dev) ← opened (minus 2) "USB device unavailable"
    let e = structure c
    error_if (not (is_nonzero e.initialized_for_connected_device)) (minus 3)
        "EEPROM not initialized for the connected device"
    ret ← call (usb_reset host)
    return_if (is_nonzero ret) ret
    (ret, status) ← call (poll_modem_status host)
    return_if (is_nonzero ret) ret
    ret ← call (set_latency_timer host 0x77)
    return_if (is_nonzero ret) ret
    write_words (pos_part e.size / 2) c dev e.buf (pos_part e.size / 2) 0
