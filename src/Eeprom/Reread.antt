-- ===== src/Eeprom/Reread.antt =====
-- ftdi_read_eeprom after ftdi_write_eeprom.
use libsgftdi.Base.{
  Bool-cases, inl, inr, ℕ, ◌+◌, ◌*◌, ◌/◌, ◌%◌, ◌≤◌, ◌<◌, ◌≡◌, ap, ◌∙◌, arith, pos, pos_part, some,
  is_nonzero, true, ◌==◌,
}
use libsgftdi.Context.{Context, Eeprom}
use libsgftdi.Usb.{Host}
use libsgftdi.Control.{forget_read}
use libsgftdi.Control.Wire.{system}
use libsgftdi.Eeprom.Image.{write_eeprom, next_word}
use libsgftdi.Eeprom.Load.{read_eeprom}
use libsgftdi.Eeprom.Loaded.{byte_of, read_eeprom-IsRead}
use libsgftdi.Eeprom.Memory.{IsMemory}
use libsgftdi.Eeprom.Written.{no_wrap, IsCalm, word_of_image, write_eeprom-ends}

-- The two bytes of a word of the image.
byte_of-word_of_image :
    (buf word : ℕ → ℕ) (k n m : ℕ)
    → ((k : ℕ) → buf k < 256)
    → ((j : ℕ) → j < m → word j ≡ word_of_image buf j)
    → m ≤ n
    → k < m * 2
    → byte_of (λ j. word (j % n)) k ≡ buf k
byte_of-word_of_image buf word k n m bytes same fits h =
    let j = k / 2 in
    let inside : j < n = omega (arith, h, fits) in
    let lo = bytes (j * 2) in
    let hi = bytes (j * 2 + 1) in
    elim (Bool-cases (k % 2 == 0)) [
      | inl even ↦
          let at : j * 2 ≡ k = ground (arith, even) in
          rw (no_wrap j n inside, same j (omega (arith, h)), even)
            (omega (arith, lo, hi, ap buf at))
      | inr odd ↦
          let at : j * 2 + 1 ≡ k = ground (arith, odd) in
          rw (no_wrap j n inside, same j (omega (arith, h)), odd) (omega (arith, lo, hi, ap buf at))
    ]

module _ {W : Type 0} (host : Host W) (c : Context) (dev : ℕ) (w : W)
    (is_open : c.usb_dev ≡ some dev) (channel : c.index < 256) (n : ℕ) (mem : W → ℕ → ℕ)
    (memory : IsMemory host dev n mem) (calm : IsCalm host dev mem)
    (plain : (i : ℕ) → next_word c.chip_type i ≡ i) (e : Eeprom) (image : c.eeprom ≡ some e)
    (built : is_nonzero e.initialized_for_connected_device ≡ true)
    (bytes : (k : ℕ) → e.buf k < 256) where
  -- For an image of at most 256 bytes that was built for the device, on an open device without a
  -- reserved area, whose memory is as large as the image or larger, and which accepts the requests
  -- for reset, modem status and latency: after ftdi_write_eeprom, ftdi_read_eeprom returns 0 and
  -- brings the image back into the buffer, byte for byte as far as it was written.
  pub write_eeprom-read_eeprom :
      pos_part e.size / 2 ≤ n
      → pos_part e.size / 2 ≤ 0x80
      → let r = read_eeprom host (write_eeprom host (system c w)).1 in
        (r.0 ≡ pos 0)
        × (e' : Eeprom) × (r.1.ftdi ≡ some (record (forget_read c) { eeprom = some e' }))
        × ((k : ℕ) → k < pos_part e.size / 2 * 2 → e'.buf k ≡ e.buf k)
  write_eeprom-read_eeprom fits small =
      let (w', ends, inside, outside) =
        write_eeprom-ends host c dev w is_open channel n mem memory calm plain e image built bytes
          fits small in
      let h = read_eeprom-IsRead host (forget_read c) dev n mem memory is_open e image w' in
      rw (ap (λ r. r.1) ends) (
        ap (λ r. r.0) h.ends,
        h.read,
        ap (λ r. r.1.ftdi) h.ends,
        λ k lt.
            h.bytes k (omega (arith, lt, small))
            ∙ byte_of-word_of_image e.buf (mem w') k n _ bytes inside fits lt,
      )
