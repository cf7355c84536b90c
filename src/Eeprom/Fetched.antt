-- ===== src/Eeprom/Fetched.antt =====
-- What is put into the EEPROM structure is what the caller gets back: the strings and the image.
use libsgftdi.Base.{ℕ, zero, suc, pos, ltb_ℤ, ◌-◌, ◌≤◌, ◌<◌, ◌≡◌, refl, true, false}
use libsgftdi.Base.{some, List, [], ◌∷◌, length, take, get_or, memcpy, arith}
use libsgftdi.Context.{Context, Eeprom}
use libsgftdi.Usb.{Host}
use libsgftdi.Eeprom.Buffer.{
  Buffer, fetched, strncpy, eeprom_get_strings, get_eeprom_buf, set_eeprom_buf, capped,
}
use libsgftdi.Eeprom.Defaults.{eeprom_set_strings}

-- The buffer holds the C string `l`, with its NUL inside the buffer.
pub record Holds (l : List ℕ) (b : Buffer) : Type 0 where
  pub room : length l < b.size
  pub chars : (k : ℕ) → k < length l → b.at k ≡ get_or l k 0
  pub nul : b.at (length l) ≡ 0

-- `b'` is `b` but for the bytes of its size.
abbrev pub Within : Buffer → Buffer → Type 0
Within b b' = (b'.size ≡ b.size) × ((k : ℕ) → b.size ≤ k → b'.at k ≡ b.at k)

-- `b'` is `b` with the string, or as much of it as there is room for.
abbrev pub Reads : List ℕ → Buffer → Buffer → Type 0
Reads l b b' = Holds (take (b.size - 1) l) b' × Within b b'

length-take-lt : (n : ℕ) (l : List ℕ) → length (take n l) ≤ n
length-take-lt zero l = omega arith
length-take-lt (suc n) [] = omega arith
length-take-lt (suc n) (x ∷ l) = omega (arith, length-take-lt n l)

get_or-take : (n k : ℕ) (l : List ℕ) → k < length (take n l) → get_or l k 0 ≡ get_or (take n l) k 0
get_or-take zero k l h = absurd (omega arith)
get_or-take (suc n) k [] h = refl
get_or-take (suc n) zero (x ∷ l) h = refl
get_or-take (suc n) (suc k) (x ∷ l) h = get_or-take n k l (omega arith)

-- What is behind a string that is not cut.
get_or-end : (n : ℕ) (l : List ℕ) → length (take n l) < n → get_or l (length (take n l)) 0 ≡ 0
get_or-end zero l h = absurd (omega arith)
get_or-end (suc n) [] h = refl
get_or-end (suc n) (x ∷ l) h = get_or-end n l (omega arith)

strncpy-Reads : (l : List ℕ) (b : Buffer) → 0 < b.size → Reads l b (strncpy l b)
strncpy-Reads l b h = (
  record {
    room = omega (arith, few);
    chars = λ k below. ground (arith, few, get_or-take (b.size - 1) k l);
    nul = ground (arith, few, get_or-end (b.size - 1) l);
  },
  (refl, λ k out. ground arith),
)
  where
    few : length (take (b.size - 1) l) ≤ b.size - 1
    few = length-take-lt (b.size - 1) l

module _ {W : Type 0} (host : Host W) (granted : (n : ℕ) (w : W) → (host.alloc n w).0 ≡ true)
    (c : Context) (e : Eeprom) (dev : ℕ) (w : W) where
  -- On an open device, and if memory is granted: the strings that ftdi_eeprom_set_strings is given
  -- are those that ftdi_eeprom_get_strings then writes into the buffers of the caller, each with its
  -- NUL and cut to the size of its buffer; nothing is written behind the size, and the context stays
  -- as it is.
  pub eeprom_set_strings-eeprom_get_strings :
      c.eeprom ≡ some e
      → c.usb_dev ≡ some dev
      → (m p s : List ℕ) (bm bp bs : Buffer) → 0 < bm.size
      → 0 < bp.size
      → 0 < bs.size
      → let put =
          eeprom_set_strings host
            (some m)
            (some p)
            (some s)
            (record { ftdi = some c; world = w }) in
        (put.0 ≡ pos 0)
        × ((bm' : Buffer) × (bp' : Buffer) × (bs' : Buffer) × (eeprom_get_strings
                (some bm)
                (some bp)
                (some bs)
                put.1
              ≡ (fetched (some bm') (some bp') (some bs'), put.1))
            × Reads m bm bm'
            × Reads p bp bp'
            × Reads s bs bs')
  unfolding eeprom_set_strings eeprom_get_strings
  eeprom_set_strings-eeprom_get_strings built there m p s bm bp bs hm hp hs =
      rw (built, there, granted, granted, granted)
        (
          refl,
          (
            strncpy m bm,
            strncpy p bp,
            strncpy s bs,
            refl,
            strncpy-Reads m bm hm,
            strncpy-Reads p bp hp,
            strncpy-Reads s bs hs,
          ),
        )

module _ {W : Type 0} (c : Context) (e : Eeprom) (w : W) where
  -- An image of at most 256 bytes, and no less than the structure's size, that ftdi_set_eeprom_buf
  -- stores comes back from ftdi_get_eeprom_buf byte for byte; what the other buffer has behind it
  -- stays, and so does all of the structure but the image.
  pub set_eeprom_buf-get_eeprom_buf :
      c.eeprom ≡ some e
      → (m m' : ℕ → ℕ) (n : ℕ) → n ≤ 256
      → ltb_ℤ (pos n) e.size ≡ false
      → let put = set_eeprom_buf (some m) n (record { ftdi = some c; world = w }) in
        (put.0 ≡ pos 0)
        × ((image : ℕ → ℕ) × (out : ℕ → ℕ) × (put.1 ≡ record {
          ftdi = some (record c { eeprom = some (record e { buf = image }) });
          world = w;
        })
            × (get_eeprom_buf (some m') n put.1 ≡ ((pos 0, some out), put.1))
            × ((k : ℕ) → k < n → out k ≡ m k)
            × ((k : ℕ) → n ≤ k → (out k ≡ m' k) × (image k ≡ e.buf k)))
  unfolding set_eeprom_buf get_eeprom_buf
  set_eeprom_buf-get_eeprom_buf built m m' n small fits =
      let image = memcpy 0 m 0 (capped n) e.buf in
      rw built (
        refl,
        (
          image,
          memcpy 0 image 0 (capped n) m',
          refl,
          ground (arith, fits),
          λ k h. ground arith,
          λ k h. (ground arith, ground arith),
        ),
      )
