-- ===== src/Tests/Eeprom.antt =====
-- A value of the EEPROM structure, set and read back.
use libsgftdi.Base.{ℕ, ℤ, pos, ◌≡◌, ◌≤◌, ◌<◌, refl, some, [], ◌∷◌, arith}
use libsgftdi.Context.{Context, zeroed}
use libsgftdi.Eeprom.Buffer.{Buffer, fetched, eeprom_get_strings, get_eeprom_buf, set_eeprom_buf}
use libsgftdi.Eeprom.Defaults.{eeprom_set_strings}
use libsgftdi.Eeprom.Fetched.{
  Reads, eeprom_set_strings-eeprom_get_strings, set_eeprom_buf-get_eeprom_buf,
}
use libsgftdi.Eeprom.Name.{EepromValue}
use libsgftdi.Eeprom.Get.{get_eeprom_value}
use libsgftdi.Eeprom.Set.{set_eeprom_value}
use libsgftdi.Eeprom.Field.{set_eeprom_value-get_eeprom_value}
use libsgftdi.Tests.Bench.{bench, opened}

set_eeprom_value-get_eeprom_value_example :
    let (code, c', e') = set_eeprom_value EepromValue.cbus_function_3 (pos 9) opened zeroed in
    (code ≡ pos 0)
    × (c' ≡ opened)
    × (e'.initialized_for_connected_device ≡ pos 0)
    × (get_eeprom_value EepromValue.cbus_function_3 opened e' ≡ (pos 0, some (pos 9), opened))
    × ((old : ℤ) × (get_eeprom_value EepromValue.cbus_function_3 opened zeroed
          ≡ (pos 0, some old, opened))
        × (set_eeprom_value EepromValue.cbus_function_3 old opened e'
            ≡ (pos 0, opened, record zeroed { initialized_for_connected_device = pos 0 })))
set_eeprom_value-get_eeprom_value_example =
    set_eeprom_value-get_eeprom_value EepromValue.cbus_function_3 (pos 9) opened zeroed refl

-- A buffer of four bytes.
abbrev small : Buffer
small = record { size = 4; at = λ k. 255 }

abbrev programmed : Context
programmed = record opened { eeprom = some zeroed }

eeprom_set_strings-eeprom_get_strings_example :
    let s =
      (eeprom_set_strings bench
        (some (65 ∷ []))
        (some (66 ∷ 67 ∷ 68 ∷ 69 ∷ []))
        (some [])
        (record { ftdi = some programmed; world = 0 })) in
    (s.0 ≡ pos 0)
    × ((m : Buffer) × (p : Buffer) × (n : Buffer) × (eeprom_get_strings
            (some small)
            (some small)
            (some small)
            s.1
          ≡ (fetched (some m) (some p) (some n), s.1))
        × Reads (65 ∷ []) small m
        × Reads (66 ∷ 67 ∷ 68 ∷ 69 ∷ []) small p
        × Reads [] small n)
eeprom_set_strings-eeprom_get_strings_example =
    eeprom_set_strings-eeprom_get_strings bench (λ n w. refl) programmed zeroed 5 0 refl refl
      (65 ∷ []) (66 ∷ 67 ∷ 68 ∷ 69 ∷ []) [] small small small (omega arith) (omega arith)
      (omega arith)

set_eeprom_buf-get_eeprom_buf_example :
    let put =
      set_eeprom_buf {W = ℕ} (some (λ k. k)) 128 (record { ftdi = some programmed; world = 0 }) in
    (put.0 ≡ pos 0)
    × ((image : ℕ → ℕ) × (out : ℕ → ℕ) × (put.1 ≡ record {
      ftdi = some (record programmed { eeprom = some (record zeroed { buf = image }) });
      world = 0;
    })
        × (get_eeprom_buf (some (λ k. 0)) 128 put.1 ≡ ((pos 0, some out), put.1))
        × ((k : ℕ) → k < 128 → out k ≡ k)
        × ((k : ℕ) → 128 ≤ k → (out k ≡ 0) × (image k ≡ zeroed.buf k)))
set_eeprom_buf-get_eeprom_buf_example =
    set_eeprom_buf-get_eeprom_buf programmed zeroed 0 refl (λ k. k) (λ k. 0) 128 (omega arith) refl
