-- ===== src/Eeprom/Written.antt =====
-- What ftdi_write_eeprom leaves in the memory.
use libsgftdi.Base.{
  ℕ, zero, suc, ◌+◌, ◌*◌, ◌/◌, ◌%◌, ◌≤◌, ◌<◌, ◌≡◌, ◌⊎◌, ◌≢◌, inl, inr, refl, ap, ◌∙◌, sym,
}
use libsgftdi.Base.{
  u16, ℤ, pos, Option, some, arith, pos_part, is_nonzero, true, false, ltb, ◌==◌, if◌then◌else◌,
}
use libsgftdi.Context.{Context, Eeprom}
use libsgftdi.Control.Wire.{system}
use libsgftdi.Control.{usb_reset, poll_modem_status, set_latency_timer, forget_read}
use libsgftdi.Usb.{Host, done, Action, ◌>>=◌, ◌>>◌}
use libsgftdi.Eeprom.Memory.{IsMemory}
use libsgftdi.Eeprom.Image.{next_word, write_words, write_word, write_eeprom}

-- Requests that the device accepts without touching the memory: reset, latency, modem status.
pub record IsCalm {W : Type 0} (host : Host W) (dev : ℕ) (mem : W → ℕ → ℕ) : Type 0 where
  pub reset :
      (index timeout : ℕ) (w : W)
      → let (r, w') =
          host.control_out dev
            (record { request = 0; value = 0; index = index; timeout = timeout })
            w in
        (r ≡ pos 0) × (mem w' ≡ mem w)
  pub latency :
      (value index timeout : ℕ) (w : W)
      → let (r, w') =
          host.control_out dev
            (record { request = 9; value = value; index = index; timeout = timeout })
            w in
        (r ≡ pos 0) × (mem w' ≡ mem w)
  pub status :
      (index timeout : ℕ) (w : W)
      → let (r, l, w') =
          host.control_in dev
            (record { request = 5; value = 0; index = index; timeout = timeout })
            2
            w in
        (r ≡ pos 2) × (mem w' ≡ mem w)

pub no_wrap : (i n : ℕ) → i < n → i % n ≡ i
no_wrap i n h = grind arith

same_test : (i : ℕ) → (i == i) ≡ true
same_test i = ground arith

other_test : (k i : ℕ) → k ≢ i → (k == i) ≡ false
other_test k i h = ground arith

-- The word of an image at `k`.
abbrev pub word_of_image : (ℕ → ℕ) → ℕ → ℕ
word_of_image buf k = buf (k * 2) + 256 * buf (k * 2 + 1)

-- A word that the device accepts is sent, and the next step follows.
accepted_word :
    {W : Type 0} (host : Host W) (c : Context) (dev v j : ℕ) (k : Action W ℤ) (o : Option Context)
    (w : W)
    → u16 v ≡ v
    → u16 j ≡ j
    → let (r, w') =
        host.control_out dev
          (record { request = 0x91; value = v; index = j; timeout = c.usb_write_timeout })
          w in
      r ≡ pos 0
      → (write_word host c dev v j >> k) (record { ftdi = o; world = w })
        ≡ k (record { ftdi = o; world = w' })
accepted_word host c dev v j k o w hv hj ok = rw (hv, hj) (rw (ok, ◌>>=◌) (rw (ok, ◌>>=◌) refl))

module _ {W : Type 0} (host : Host W) (c : Context) (dev : ℕ) (n : ℕ) (mem : W → ℕ → ℕ)
    (memory : IsMemory host dev n mem) (plain : (i : ℕ) → next_word c.chip_type i ≡ i) (buf : ℕ → ℕ)
    (bytes : (k : ℕ) → buf k < 256) (m : ℕ) (fits : m ≤ n) (small : m ≤ 0x80) where
  -- The words from `i` on are those of the image, all others as before.
  abbrev Copied : ℕ → W → W → Type 0
  Copied i w w' =
      ((k : ℕ) → i ≤ k → k < m → mem w' k ≡ word_of_image buf k)
      × ((k : ℕ) → (k < i) ⊎ (m ≤ k) → mem w' k ≡ mem w k)

  abbrev next : ℕ → W → ℤ × W
  next i w =
      host.control_out dev
        (record {
          request = 0x91;
          value = word_of_image buf i;
          index = i;
          timeout = c.usb_write_timeout;
        })
        w

  one_word :
      (rounds i : ℕ) (o : Option Context) (w : W)
      → i < m
      → write_words host (suc rounds) c dev buf m i (record { ftdi = o; world = w })
        ≡ write_words host rounds c dev buf m (i + 1) (record { ftdi = o; world = (next i w).1 })
  unfolding write_words
  one_word rounds i o w h =
      let word_fits : buf (i * 2) + buf (i * 2 + 1) * 256 ≡ word_of_image buf i = omega arith in
      let narrow : (buf (i * 2) + buf (i * 2 + 1) * 256) % 65536 ≡ word_of_image buf i =
        omega (arith, bytes (i * 2), bytes (i * 2 + 1)) in
      let on : ltb i m ≡ true = ground arith in
      let index : i % 65536 ≡ i = omega arith in
      let value : word_of_image buf i % 65536 ≡ word_of_image buf i =
        omega (arith, bytes (i * 2), bytes (i * 2 + 1)) in
      let (accepted, content) = memory.written (word_of_image buf i) i c.usb_write_timeout w in
      rw (on, plain i, narrow)
        (accepted_word host c dev (word_of_image buf i) i
          (write_words host rounds c dev buf m (i + 1)) o w value index accepted)

  at_or_after : (i k : ℕ) → i ≤ k → (k ≡ i) ⊎ (i + 1 ≤ k)
  at_or_after i k h = omega arith

  content :
      (i k : ℕ) (w : W) → mem (next i w).1 k ≡ (if k == i % n then word_of_image buf i else mem w k)
  content i k w = ap (λ f. f k) (memory.written (word_of_image buf i) i c.usb_write_timeout w).1

  wraps : (i : ℕ) → i < m → i % n ≡ i
  wraps i h = let h' : i < n = omega arith in no_wrap i n h'

  content_same : (i k : ℕ) (w : W) → i < m → k ≡ i → mem (next i w).1 k ≡ word_of_image buf k
  content_same i k w h same =
      let hit : (k == i % n) ≡ true = rw (wraps i h, same) (same_test i) in
      let e : mem (next i w).1 k ≡ word_of_image buf i = rw hit at (content i k w) in
      e ∙ ap (word_of_image buf) (sym same)

  content_other : (i k : ℕ) (w : W) → i < m → k ≢ i → mem (next i w).1 k ≡ mem w k
  content_other i k w h other =
      let miss : (k == i % n) ≡ false = rw (wraps i h) (other_test k i other) in
      rw miss at (content i k w)

  pub write_words-Copied :
      (rounds i : ℕ) (o : Option Context) (w : W)
      → i + rounds ≡ m
      → (w' : W) × (write_words host rounds c dev buf m i (record { ftdi = o; world = w })
          ≡ (done (pos 0), record { ftdi = o; world = w' }))
        × Copied i w w'
  unfolding write_words
  write_words-Copied zero i o w h = (w, refl, ((λ k lo hi. absurd (omega arith)), λ k h. refl))
  write_words-Copied (suc rounds) i o w h =
      let (w', e, (inside, outside)) =
        write_words-Copied rounds (i + 1) o (next i w).1 (omega arith) in
      (
        w',
        one_word rounds i o w (omega arith) ∙ e,
        (
          λ k lo hi. elim (at_or_after i k lo) [
            | inl same ↦ outside k (inl (omega arith)) ∙ content_same i k w (omega arith) same
            | inr later ↦ inside k later hi
          ],
          λ k apart. outside k (omega arith) ∙ content_other i k w (omega arith) (omega arith),
        ),
      )

module _ {W : Type 0} (host : Host W) (c : Context) (dev : ℕ) (w : W)
    (is_open : c.usb_dev ≡ some dev) (channel : c.index < 256) (n : ℕ) (mem : W → ℕ → ℕ)
    (memory : IsMemory host dev n mem) (calm : IsCalm host dev mem)
    (plain : (i : ℕ) → next_word c.chip_type i ≡ i) (e : Eeprom) (image : c.eeprom ≡ some e)
    (built : is_nonzero e.initialized_for_connected_device ≡ true)
    (bytes : (k : ℕ) → e.buf k < 256) where
  -- The state that a whole write ends in.
  pub write_eeprom-ends :
      pos_part e.size / 2 ≤ n
      → pos_part e.size / 2 ≤ 0x80
      → (w' : W) × (write_eeprom host (system c w) ≡ (pos 0, system (forget_read c) w'))
        × ((k : ℕ) → k < pos_part e.size / 2 → mem w' k ≡ word_of_image e.buf k)
        × ((k : ℕ) → pos_part e.size / 2 ≤ k → mem w' k ≡ mem w k)
  unfolding write_eeprom usb_reset poll_modem_status set_latency_timer
  write_eeprom-ends fits small =
      let m = pos_part e.size / 2 in
      let w1 =
        (host.control_out dev
          (record { request = 0; value = 0; index = c.index; timeout = c.usb_write_timeout })
          w).1 in
      let (r1, m1) = calm.reset c.index c.usb_write_timeout w in
      let w2 =
        (host.control_in dev
          (record { request = 5; value = 0; index = c.index; timeout = c.usb_read_timeout }) 2
          w1).2 in
      let (r2, m2) = calm.status c.index c.usb_read_timeout w1 in
      let w3 =
        (host.control_out dev
          (record { request = 9; value = 0x77; index = c.index; timeout = c.usb_write_timeout })
          w2).1 in
      let (r3, m3) = calm.latency 0x77 c.index c.usb_write_timeout w2 in
      let (w', run, (inside, outside)) =
        write_words-Copied host c dev n mem memory plain e.buf bytes m fits small m 0
          (some (forget_read c)) w3 (omega arith) in
      let ends : write_eeprom host (system c w) ≡ (pos 0, system (forget_read c) w') =
        ground (arith, r1, r2, r3, run) in
      (
        w',
        ends,
        λ k h. inside k (omega arith) h,
        λ k h. outside k (inr h) ∙ ap (λ f. f k) (m3 ∙ m2 ∙ m1),
      )

  -- For an image of at most 256 bytes that was built for the device, on an open device without a
  -- reserved area, whose memory is as large as the image or larger, and which accepts the requests
  -- for reset, modem status and latency, ftdi_write_eeprom returns 0, and the memory then holds the
  -- words of the image, low byte first, and behind them what it held before.
  pub write_eeprom_lem :
      pos_part e.size / 2 ≤ n
      → pos_part e.size / 2 ≤ 0x80
      → let (code, s) = write_eeprom host (system c w) in
        (code ≡ pos 0)
        × ((k : ℕ) → k < pos_part e.size / 2 → mem s.world k ≡ word_of_image e.buf k)
        × ((k : ℕ) → pos_part e.size / 2 ≤ k → mem s.world k ≡ mem w k)
  write_eeprom_lem fits small =
      let (w', ends, inside, outside) = write_eeprom-ends fits small in
      (
        ap (λ r. r.0) ends,
        λ k h. ap (λ r. mem r.1.world k) ends ∙ inside k h,
        λ k h. ap (λ r. mem r.1.world k) ends ∙ outside k h,
      )
