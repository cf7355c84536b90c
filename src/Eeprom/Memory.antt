-- ===== src/Eeprom/Memory.antt =====
-- The memory behind the requests: what a serial EEPROM does, and what ftdi_erase_eeprom finds out.
use libsgftdi.Base.{
  bit_or, bit_and, ◌<<<◌, ℕ, ◌/◌, ◌%◌, ◌≡◌, refl, ap, ◌∙◌, List, [], ◌∷◌, ℤ, pos, some, store,
  arith, false,
}
use libsgftdi.Context.{Context}
use libsgftdi.Control.Wire.{system}
use libsgftdi.Usb.{Host, Setup, done}
use libsgftdi.Eeprom.Access.{
  read_eeprom_location, erase_eeprom, is_internal, with_chip, magic, detect,
}

-- A memory of `n` words behind a device, whose content in a state of the outside world is `mem`: an
-- address beyond it wraps around, erasing sets all bits, and a word is sent low byte first.
pub record IsMemory {W : Type 0} (host : Host W) (dev n : ℕ) (mem : W → ℕ → ℕ) : Type 0 where
  pub erased :
      (value index timeout : ℕ) (w : W)
      → let (r, w') =
          host.control_out dev
            (record { request = 0x92; value = value; index = index; timeout = timeout })
            w in
        (r ≡ pos 0) × (mem w' ≡ (λ k. 0xffff))
  pub written :
      (value index timeout : ℕ) (w : W)
      → let (r, w') =
          host.control_out dev
            (record { request = 0x91; value = value; index = index; timeout = timeout })
            w in
        (r ≡ pos 0) × (mem w' ≡ store (index % n) value (mem w))
  pub loaded :
      (index timeout : ℕ) (w : W)
      → let (r, l, w') =
          host.control_in dev
            (record { request = 0x90; value = 0; index = index; timeout = timeout })
            2
            w in
        (r ≡ pos 2)
        × (l ≡ mem w (index % n) % 256 ∷ mem w (index % n) / 256 % 256 ∷ [])
        × (mem w' ≡ mem w)

-- The types of memory that the chips work with.
pub data MemoryType : Type 0 where
  type_93x46 type_93x56 type_93x66 : MemoryType

abbrev pub words : MemoryType → ℕ
words MemoryType.type_93x46 = 0x40
words MemoryType.type_93x56 = 0x80
words MemoryType.type_93x66 = 0x100

abbrev pub number : MemoryType → ℤ
number MemoryType.type_93x46 = pos 0x46
number MemoryType.type_93x56 = pos 0x56
number MemoryType.type_93x66 = pos 0x66

module _ {W : Type 0} (host : Host W) (c : Context) (dev : ℕ) (w : W)
    (is_open : c.usb_dev ≡ some dev) (external : is_internal c.chip_type ≡ false)
    (mem : W → ℕ → ℕ) where
  abbrev request_out : ℕ → ℕ → ℕ → Setup
  request_out request value index = record {
    request = request;
    value = value;
    index = index;
    timeout = c.usb_write_timeout;
  }

  abbrev load : ℕ → W → ℤ × List ℕ × W
  load index =
      host.control_in dev
        (record { request = 0x90; value = 0; index = index; timeout = c.usb_read_timeout }) 2

  -- The memory after the magic word was written to the erased memory.
  abbrev marked : ℕ → ℕ → ℕ
  marked n = store (0xc0 % n) magic (λ k. 0xffff)

  -- What a load of a word gives, by the content before it.
  load_lem :
      (n index : ℕ) (f : ℕ → ℕ) (w : W)
      → IsMemory host dev n mem
      → mem w ≡ f
      → ((load index w).0 ≡ pos 2)
        × ((load index w).1 ≡ f (index % n) % 256 ∷ f (index % n) / 256 % 256 ∷ [])
        × (mem (load index w).2 ≡ f)
  load_lem n index f w m h =
      let (r, l, same) = m.loaded index c.usb_read_timeout w in
      (r, l ∙ ap (λ f. f (index % n) % 256 ∷ f (index % n) / 256 % 256 ∷ []) h, same ∙ h)

  abbrev w1 : W
  w1 = (host.control_out dev (request_out 0x92 0 0) w).1

  abbrev w2 : W
  w2 = (host.control_out dev (request_out 0x91 magic 0xc0) w1).1

  marked_lem : (n : ℕ) → IsMemory host dev n mem → mem w2 ≡ marked n
  marked_lem n m =
      (m.written magic 0xc0 c.usb_write_timeout w1).1
      ∙ ap (store (0xc0 % n) magic) (m.erased 0 0 c.usb_write_timeout w).1

  -- The two bytes of a word, put together again.
  abbrev joined : ℕ → ℕ
  joined v = bit_or (bit_and 0xff (v % 256)) ((v / 256 % 256) <<< 8)

  -- Reading a word gives what the memory holds there.
  word_lem :
      (n index : ℕ) (f : ℕ → ℕ) (w : W)
      → IsMemory host dev n mem
      → mem w ≡ f
      → index % 65536 ≡ index
      → read_eeprom_location host index (system c w)
        ≡ ((pos 0, some (joined (f (index % n)))), system c (load index w).2)
  unfolding read_eeprom_location
  word_lem n index f w m h small =
      let (r, l, same) = load_lem n index f w m h in ground (arith, r, l, small)

  -- The search for the magic word finds out the type, and changes nothing.
  abbrev Detects : MemoryType → Type 0
  Detects t = (w' : W) × (detect host (system c w2) ≡ (done (number t), system c w'))

  detects_46 : IsMemory host dev 0x40 mem → Detects MemoryType.type_93x46
  detects_46 m =
      ((load 0 w2).2, ground (arith, word_lem 0x40 0 (marked 0x40) w2 m (marked_lem 0x40 m) refl))

  detects_56 : IsMemory host dev 0x80 mem → Detects MemoryType.type_93x56
  detects_56 m =
      let w3 = (load 0 w2).2 in
      let kept = (load_lem 0x80 0 (marked 0x80) w2 m (marked_lem 0x80 m)).2 in
      (
        (load 0x40 w3).2,
        ground (
          arith,
          word_lem 0x80 0 (marked 0x80) w2 m (marked_lem 0x80 m) refl,
          word_lem 0x80 0x40 (marked 0x80) w3 m kept refl,
        ),
      )

  detects_66 : IsMemory host dev 0x100 mem → Detects MemoryType.type_93x66
  detects_66 m =
      let w3 = (load 0 w2).2 in
      let w4 = (load 0x40 w3).2 in
      let kept = (load_lem 0x100 0 (marked 0x100) w2 m (marked_lem 0x100 m)).2 in
      let still = (load_lem 0x100 0x40 (marked 0x100) w3 m kept).2 in
      (
        (load 0xc0 w4).2,
        ground (
          arith,
          word_lem 0x100 0 (marked 0x100) w2 m (marked_lem 0x100 m) refl,
          word_lem 0x100 0x40 (marked 0x100) w3 m kept refl,
          word_lem 0x100 0xc0 (marked 0x100) w4 m still refl,
        ),
      )

  detect_lem : (t : MemoryType) → IsMemory host dev (words t) mem → Detects t
  detect_lem MemoryType.type_93x46 m = detects_46 m
  detect_lem MemoryType.type_93x56 m = detects_56 m
  detect_lem MemoryType.type_93x66 m = detects_66 m

  -- ftdi_erase_eeprom on a device with a memory of one of the three types returns 0, leaves every
  -- word of the memory erased, and has found out the type of the memory.
  pub erase_eeprom_lem :
      (t : MemoryType)
      → IsMemory host dev (words t) mem
      → let (code, s) = erase_eeprom host (system c w) in
        (code ≡ pos 0) × (mem s.world ≡ (λ k. 0xffff)) × (s.ftdi ≡ some (with_chip (number t) c))
  unfolding erase_eeprom
  erase_eeprom_lem t m =
      let timeout = c.usb_write_timeout in
      let (w', found) = detect_lem t m in
      ground (
        arith,
        m.erased 0 0 timeout w,
        m.written magic 0xc0 timeout w1,
        found,
        m.erased 0 0 timeout w',
      )
