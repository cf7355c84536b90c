-- ===== src/Eeprom/Load.antt =====
-- ftdi_read_eeprom, on a context with its EEPROM structure. What a transfer that fails leaves in the
-- buffer is not modelled. Behind the buffer stands `release_number`, low byte first, and strrchr is taken
-- to stop at its end.
use libsgftdi.Base.{◌/◌, ◌%◌, word, [], ◌∷◌, false, ◌||◌}
use libsgftdi.Base.{
  ℕ, zero, suc, ◌+◌, ◌*◌, ℤ, pos, minus, eq_ℤ, not, Bool, ◌==◌, ◌&&◌, none, some, store, every,
  get_or, List,
}
use libsgftdi.Base.{if◌then◌else◌}
use libsgftdi.Context.{Context, ChipType, Eeprom}
use libsgftdi.Usb.{
  Host, Function, Action, ◌>>=◌, ◌>>◌, body, opened, pure, update, error_if, vendor_in,
}

abbrev pub change : (Eeprom → Eeprom) → Context → Context
change f c = record c { eeprom = elim c.eeprom [ none ↦ none | some e ↦ some (f e) ] }

-- The two bytes at buf + i * 2
abbrev pub stored : ℕ → List ℕ → Eeprom → Eeprom
stored i l e = record e {
  buf = store (i * 2 + 1) (get_or l 1 0) (store (i * 2) (get_or l 0 0) e.buf);
}

-- The bytes of an int.
abbrev pub int_bytes : ℤ → List ℕ
int_bytes z = let n = word z in n % 256 ∷ n / 256 % 256 ∷ n / 65536 % 256 ∷ n / 16777216 ∷ []

-- Is there another 0xff before the next NUL?
abbrev pub finds_ff : List ℕ → Bool
finds_ff [] = false
finds_ff (x ∷ l) = let rest = finds_ff l in if x == 0 then false else x == 0xff || rest

-- strrchr(buf, 0xff) == buf + FTDI_MAX_EEPROM_SIZE - 1: no NUL stops it before the end, and the last
-- byte of the buffer is the last that it finds.
abbrev pub is_blank : Eeprom → Bool
is_blank e =
    every (λ k. not (e.buf k == 0)) 256
    && e.buf 255 == 0xff
    && not (finds_ff (int_bytes e.release_number))

-- memcmp(buf, buf + n, n) == 0
abbrev pub repeats : (ℕ → ℕ) → ℕ → Bool
repeats buf n = every (λ k. buf k == buf (n + k)) n

abbrev guess : Eeprom → ℤ
guess e =
    if is_blank e
    then minus 1
    else if repeats e.buf 0x80
    then pos 0x80
    else if repeats e.buf 0x40
    then pos 0x40
    else pos 0x100

unfoldable pub memory_size : ChipType → Eeprom → ℤ
memory_size ChipType.type_r e = pos 0x80
memory_size _ e = guess e

abbrev pub sized_by : ChipType → Eeprom → Eeprom
sized_by kind e = record e { size = memory_size kind e }

module _ {W : Type 0} (host : Host W) where
  -- The loop over `i`, with `rounds` left.
  unfoldable pub read_words : ℕ → Context → ℕ → ℕ → Action W (Unit {0})
  read_words zero c dev i = pure tt
  read_words (suc rounds) c dev i = do
    (r, l) ← vendor_in host c dev 0x90 0 i 2
    error_if (not (eq_ℤ r (pos 2))) (minus 1) "reading eeprom failed"
    update (change (stored i l))
    read_words rounds c dev (i + 1)

  unfoldable pub read_eeprom : Function W ℤ
  read_eeprom = body do
    (c, dev) ← opened (minus 2) "USB device unavailable"
    read_words 0x80 c dev 0
    update (change (sized_by c.chip_type))
    pure (pos 0)
