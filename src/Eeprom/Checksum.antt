-- ===== src/Eeprom/Checksum.antt =====
-- The checksum that ftdi_eeprom_build puts into the image is the one that ftdi_eeprom_decode wants.
use libsgftdi.Base.{pos, negsuc, ℤ, ◌∙◌}
use libsgftdi.Base.{ℕ, zero, suc, ◌+◌, ◌-◌, ◌*◌, ◌/◌, ◌%◌, ◌≤◌, ◌<◌, ◌≡◌, refl, sym, arith}
use libsgftdi.Base.{ltb, ◌==◌, true, false, Bool, Bool-cases, inl, inr, store, pos_part}
use libsgftdi.Base.{◌<<<◌}
use libsgftdi.Context.{Eeprom, ChipType}
use libsgftdi.Usb.{Host, Sys, done}
use libsgftdi.Eeprom.Build.{mix, word_at, skipped, is_factory, sum_words, finished, words_of}
use libsgftdi.Eeprom.Decode.{checksum_of, is_intact, byte_at, less}

-- Every type but the FT230X, whose image has a part that the device keeps for itself.
abbrev pub is_plain : ChipType → Bool
is_plain ChipType.type_230x = false
is_plain _ = true

pub skipped-same : (kind : ChipType) (i : ℕ) → is_plain kind ≡ true → skipped kind i ≡ i
skipped-same ChipType.type_am i h = refl
skipped-same ChipType.type_bm i h = refl
skipped-same ChipType.type_2232c i h = refl
skipped-same ChipType.type_r i h = refl
skipped-same ChipType.type_2232h i h = refl
skipped-same ChipType.type_4232h i h = refl
skipped-same ChipType.type_232h i h = refl
skipped-same ChipType.type_230x i h = absurd (ground arith)

is_factory-none : (kind : ChipType) (i : ℕ) → is_plain kind ≡ true → is_factory kind i ≡ false
is_factory-none ChipType.type_am i h = refl
is_factory-none ChipType.type_bm i h = refl
is_factory-none ChipType.type_2232c i h = refl
is_factory-none ChipType.type_r i h = refl
is_factory-none ChipType.type_2232h i h = refl
is_factory-none ChipType.type_4232h i h = refl
is_factory-none ChipType.type_232h i h = refl
is_factory-none ChipType.type_230x i h = absurd (ground arith)

-- The loop of the build, which may read from the device, is the loop of the decoder.
pub sum_words-checksum_of :
    {W : Type 0} (host : Host W) (kind : ChipType) (m : ℕ → ℕ) (n rounds i cs : ℕ) (s : Sys W)
    → is_plain kind ≡ true
    → n < 256
    → sum_words host rounds kind m n i cs s ≡ (done (checksum_of rounds kind m n i cs), s)
unfolding sum_words checksum_of
sum_words-checksum_of host kind m n zero i cs s h small = refl
sum_words-checksum_of host kind m n (suc rounds) i cs s h small = elim (Bool-cases (ltb i n)) [
  | inr end ↦ rw end refl
  | inl on ↦
      rw (on, skipped-same kind i h, is_factory-none kind i h, next i on)
        (sum_words-checksum_of host kind m n rounds (i + 1) (mix (word_at m i) cs) s h small)
]
  where
    next : (i : ℕ) → ltb i n ≡ true → (i + 1) % 256 ≡ i + 1
    next i on = ground arith

-- The checksum reads the bytes of the words below `n` only.
checksum_of_ext :
    (kind : ChipType) (m m' : ℕ → ℕ) (n rounds i cs : ℕ)
    → is_plain kind ≡ true
    → ((k : ℕ) → k < n * 2 → m k ≡ m' k)
    → checksum_of rounds kind m n i cs ≡ checksum_of rounds kind m' n i cs
unfolding checksum_of
checksum_of_ext kind m m' n zero i cs h same = refl
checksum_of_ext kind m m' n (suc rounds) i cs h same = elim (Bool-cases (ltb i n)) [
  | inr end ↦ rw end refl
  | inl on ↦
      rw (on, skipped-same kind i h)
        (rw (same (i * 2) (below i on).0, same (i * 2 + 1) (below i on).1)
          (checksum_of_ext kind m m' n rounds (i + 1) (mix (word_at m' i) cs) h same))
]
  where
    below : (i : ℕ) → ltb i n ≡ true → (i * 2 < n * 2) × (i * 2 + 1 < n * 2)
    below i on = ground arith

-- The two bytes of the checksum, and all others.
finished-bytes :
    (m : ℕ → ℕ) (size a b k : ℕ)
    → 2 ≤ size
    → k < (size / 2 - 1) * 2
    → store (size - 1) a (store (size - 2) b m) k ≡ m k
finished-bytes m size a b k lo h = ground arith

last_two :
    (m : ℕ → ℕ) (size a b : ℕ)
    → 2 ≤ size
    → let f = store (size - 1) a (store (size - 2) b m) in (f (size - 2) ≡ b) × (f (size - 1) ≡ a)
last_two m size a b lo = (ground arith, ground arith)

joined : (a b cs t : ℕ) → a ≡ cs % 256 → b ≡ cs / 256 → cs ≡ t → (a + (b <<< 8) == t) ≡ true
joined a b cs t low high same = ground arith

-- With a size of two or more, the last two bytes of the memory are in the buffer.
byte_at-inside :
    (e : Eeprom)
    → 2 ≤ pos_part e.size
    → (byte_at e (less e.size 2) ≡ e.buf (pos_part e.size - 2))
      × (byte_at e (less e.size 1) ≡ e.buf (pos_part e.size - 1))
byte_at-inside e = inside e.size
  where
    inside :
        (size : ℤ)
        → 2 ≤ pos_part size
        → (byte_at e (less size 2) ≡ e.buf (pos_part size - 2))
          × (byte_at e (less size 1) ≡ e.buf (pos_part size - 1))
    inside (pos m) lo = (ground arith, ground arith)
    inside (negsuc m) lo = absurd (omega arith)

-- What was finished with the checksum of its words is intact.
pub finished-is_intact :
    (kind : ChipType) (e : Eeprom)
    → is_plain kind ≡ true
    → 2 ≤ pos_part e.size
    → is_intact kind (finished e (checksum_of (words_of e) kind e.buf (words_of e) 0 0xaaaa)) ≡ true
unfolding finished is_intact
finished-is_intact kind e h lo =
    let size = pos_part e.size in
    let n = words_of e in
    let cs = checksum_of n kind e.buf n 0 0xaaaa in
    let (low, high) = last_two e.buf size (cs / 256) (cs % 256) lo in
    let same =
      checksum_of_ext kind e.buf (finished e cs).buf n n 0 0xaaaa h
        (λ k lt. sym (finished-bytes e.buf size (cs / 256) (cs % 256) k lo lt)) in
    let (at2, at1) = byte_at-inside (finished e cs) lo in
    joined _ _ cs _ (at2 ∙ low) (at1 ∙ high) same
