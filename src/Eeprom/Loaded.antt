-- ===== src/Eeprom/Loaded.antt =====
-- What ftdi_read_eeprom brings into the structure.
use libsgftdi.Base.{
  ℕ, zero, suc, ◌+◌, ◌*◌, ◌/◌, ◌%◌, ◌≤◌, ◌<◌, ◌≡◌, refl, ap, subst, sym, ◌∙◌, arith, ℤ, List, [],
  ◌∷◌, pos, some, ◌⊎◌, inl, inr,
}
use libsgftdi.Base.{if◌then◌else◌, ◌==◌}
use libsgftdi.Context.{Context, Eeprom}
use libsgftdi.Usb.{Host, Sys, done}
use libsgftdi.Control.Wire.{system}
use libsgftdi.Eeprom.Memory.{IsMemory}
use libsgftdi.Eeprom.Guess.{HasSize, memory_size-HasSize, memory_size-size}
use libsgftdi.Eeprom.Load.{read_eeprom, read_words, stored, sized_by, memory_size}

-- Byte `k` of a memory of words, the low byte of a word first.
abbrev pub byte_of : (ℕ → ℕ) → ℕ → ℕ
byte_of word k = if k % 2 == 0 then word (k / 2) % 256 else word (k / 2) / 256 % 256

first_or_later : (i k : ℕ) → i * 2 ≤ k → (k < (i + 1) * 2) ⊎ ((i + 1) * 2 ≤ k)
first_or_later i k lo = omega arith

old_byte : (i k : ℕ) (l : List ℕ) (e : Eeprom) → k < i * 2 → (stored i l e).buf k ≡ e.buf k
old_byte i k l e h = ground arith

new_bytes :
    (i k : ℕ) (l : List ℕ) (e : Eeprom) (word : ℕ → ℕ)
    → i * 2 ≤ k
    → k < (i + 1) * 2
    → l ≡ word i % 256 ∷ word i / 256 % 256 ∷ []
    → (stored i l e).buf k ≡ byte_of word k
new_bytes i k l e word lo hi bytes =
    let half : k / 2 ≡ i = omega (arith, lo, hi) in rw (bytes, half) (ground (arith, lo, hi))

module _ {W : Type 0} (host : Host W) (c : Context) (dev n : ℕ) (mem : W → ℕ → ℕ)
    (memory : IsMemory host dev n mem) where
  abbrev at : Eeprom → Context
  at e = record c { eeprom = some e }

  abbrev wrapped : W → ℕ → ℕ
  wrapped w k = mem w (k % n)

  -- The words from `i` to `i + rounds` are in the buffer, all other bytes as before.
  abbrev IsLoaded : ℕ → ℕ → W → Eeprom → Eeprom → Type 0
  IsLoaded i rounds w e e' =
      (e' ≡ record e { buf = e'.buf })
      × ((k : ℕ) → i * 2 ≤ k → k < (i + rounds) * 2 → e'.buf k ≡ byte_of (wrapped w) k)
      × ((k : ℕ) → k < i * 2 → e'.buf k ≡ e.buf k)

  one_word :
      (rounds i : ℕ) (e : Eeprom) (w : W)
      → i % 65536 ≡ i
      → (host.control_in dev
          (record { request = 0x90; value = 0; index = i; timeout = c.usb_read_timeout })
          2
          w).0
        ≡ pos 2
      → let (r, l, w1) =
          host.control_in dev
            (record { request = 0x90; value = 0; index = i; timeout = c.usb_read_timeout })
            2
            w in
        read_words host (suc rounds) c dev i (system (at e) w)
        ≡ read_words host rounds c dev (i + 1) (system (at (stored i l e)) w1)
  unfolding read_words
  one_word rounds i e w index two = ground (arith, index, two)

  read_words-IsLoaded :
      (rounds i : ℕ) (e : Eeprom) (w : W)
      → i + rounds ≤ 0x80
      → (e' : Eeprom) × (w' : W) × (read_words host rounds c dev i (system (at e) w)
          ≡ (done tt, system (at e') w'))
        × IsLoaded i rounds w e e'
        × (mem w' ≡ mem w)
  unfolding read_words
  read_words-IsLoaded zero i e w small =
      (e, w, refl, (refl, (λ k lo hi. absurd (omega arith)), λ k h. refl), refl)
  read_words-IsLoaded (suc rounds) i e w small =
      let (r, l, w1) =
        host.control_in dev
          (record { request = 0x90; value = 0; index = i; timeout = c.usb_read_timeout }) 2 w in
      let (two, bytes, same) = memory.loaded i c.usb_read_timeout w in
      let (e', w', run, (kept, inside, before), same') =
        read_words-IsLoaded rounds (i + 1) (stored i l e) w1 (omega (arith, small)) in
      let index : i % 65536 ≡ i = omega (arith, small) in
      (
        e',
        w',
        one_word rounds i e w index two ∙ run,
        (
          kept,
          λ k lo hi. elim (first_or_later i k lo) [
            | inl first ↦ before k first ∙ new_bytes i k l e (wrapped w) lo first bytes
            | inr later ↦
                inside k later (omega (arith, hi)) ∙ ap (λ m. byte_of (λ j. m (j % n)) k) same
          ],
          λ k h. before k (omega (arith, h)) ∙ old_byte i k l e h,
        ),
        same' ∙ same,
      )

  -- What ftdi_read_eeprom comes to, from a structure to the next.
  pub record IsRead (e : Eeprom) (w : W) (r : ℤ × Sys W) : Type 0 where
    pub read : Eeprom
    pub after : W
    pub ends : r ≡ (pos 0, system (at read) after)
    pub bytes : (k : ℕ) → k < 256 → read.buf k ≡ byte_of (wrapped w) k
    pub size : HasSize c.chip_type read read.size
    pub kept : read ≡ record e { buf = read.buf; size = read.size }
    pub memory_kept : mem after ≡ mem w

read_end :
    {W : Type 0} (host : Host W) (c : Context) (dev : ℕ) (e : Eeprom) (w w' : W)
    → c.usb_dev ≡ some dev
    → read_words host 0x80 c dev 0 (system c w)
      ≡ (done tt, system (record c { eeprom = some e }) w')
    → read_eeprom host (system c w)
      ≡ (pos 0, system (record c { eeprom = some (sized_by c.chip_type e) }) w')
unfolding read_eeprom
read_end host c dev e w w' is_open run = ground (arith, is_open, run)

module _ {W : Type 0} (host : Host W) (c : Context) (dev n : ℕ) (mem : W → ℕ → ℕ)
    (memory : IsMemory host dev n mem) (is_open : c.usb_dev ≡ some dev) (e : Eeprom)
    (there : c.eeprom ≡ some e) where
  read_eeprom-at :
      (w : W)
      → IsRead host c dev n mem memory e w
          (read_eeprom host (system (record c { eeprom = some e }) w))
  unfolding read_eeprom
  read_eeprom-at w =
      let here : Context = record c { eeprom = some e } in
      let (e', w', run, (kept, inside, before), same) =
        read_words-IsLoaded host here dev n mem memory 0x80 0 e w (omega arith) in
      record {
        read = sized_by c.chip_type e';
        after = w';
        ends = read_end host here dev e' w w' is_open run;
        bytes = λ k h. inside k (omega arith) (omega (arith, h));
        size =
            subst (HasSize c.chip_type (sized_by c.chip_type e'))
              (memory_size-size c.chip_type e' (memory_size c.chip_type e'))
              (memory_size-HasSize c.chip_type (sized_by c.chip_type e'));
        kept = ap (λ (x : Eeprom). record x { size = memory_size c.chip_type e' }) kept;
        memory_kept = same;
      }

  -- On an open device with a memory of `n` words behind it, ftdi_read_eeprom returns 0, and has
  -- brought the memory into the first 256 bytes of the buffer, low byte first, once more from the
  -- start where the memory ends. The size is 128 on an FT232R, and else -1 if no byte of the buffer is 0,
  -- its last is 0xff and no other 0xff follows before a 0 in the release number behind it; 128 or 64 if
  -- the buffer repeats after so many bytes, the larger first; or 256. The rest of the structure and of
  -- the context and the memory are as before.
  pub read_eeprom-IsRead :
      (w : W) → IsRead host c dev n mem memory e w (read_eeprom host (system c w))
  read_eeprom-IsRead w =
      let same : c ≡ record c { eeprom = some e } = ap (λ o. record c { eeprom = o }) there in
      subst (λ x. IsRead host c dev n mem memory e w (read_eeprom host (system x w))) (sym same)
        (read_eeprom-at w)
