-- ===== src/Eeprom/Field.antt =====
-- The values of the EEPROM structure are independent fields: what is set is read back, and setting
-- one touches no other.
use libsgftdi.Base.{
  ℕ, ◌==◌, ==_iff, Bool-cases, ℤ, pos, Bool, true, false, some, ◌≡◌, refl, ap, sym, inl, inr, store,
  arith,
}
use libsgftdi.Context.{Context, Eeprom}
use libsgftdi.Eeprom.Name.{EepromValue}
use libsgftdi.Eeprom.Get.{value_of, get_eeprom_value}
use libsgftdi.Eeprom.Set.{assign, set_eeprom_value}

-- Writing back what was read undoes a write.
store_at : (f : ℕ → ℤ) (i : ℕ) (v : ℤ) (k : ℕ) → store i (f i) (store i v f) k ≡ f k
store_at f i v k = elim (Bool-cases (k == i)) [
  | inl same ↦ rw same (ap f (sym ((==_iff k i).0 same)))
  | inr other ↦ rw other refl
]

store_back : (f : ℕ → ℤ) (i : ℕ) (v : ℤ) → store i (f i) (store i v f) ≡ f
store_back f i v t k = store_at f i v k t

-- Only the function of one pin changes.
cbus_back :
    (i : ℕ) (v : ℤ) (c : Context) (e : Eeprom)
    → ◌≡◌ {A = ℤ × Context × Eeprom}
        (
          pos 0,
          c,
          record e {
            cbus_function = store i (e.cbus_function i) (store i v e.cbus_function);
            initialized_for_connected_device = pos 0;
          },
        )
        (pos 0, c, record e { initialized_for_connected_device = pos 0 })
cbus_back i v c e =
    ap (λ f. (pos 0, c, record e { cbus_function = f; initialized_for_connected_device = pos 0 }))
      (store_back e.cbus_function i v)

-- The names that can be both read and set: all but the size of the chip and the address of the user
-- data.
abbrev pub is_variable : EepromValue → Bool
is_variable EepromValue.chip_size = false
is_variable EepromValue.user_data_addr = false
is_variable (EepromValue.other n) = false
is_variable _ = true

-- The names that can be both read and set are the fields of the structure, each alone: setting one
-- succeeds, and marks the structure as not built for the device; what was set is read back; and
-- setting the value that was read before gives the structure as it was, but for that mark.
pub set_eeprom_value-get_eeprom_value :
    (name : EepromValue) (v : ℤ) (c : Context) (e : Eeprom)
    → is_variable name ≡ true
    → let (code, c', e') = set_eeprom_value name v c e in
      (code ≡ pos 0)
      × (c' ≡ c)
      × (e'.initialized_for_connected_device ≡ pos 0)
      × (get_eeprom_value name c e' ≡ (pos 0, some v, c))
      × ((old : ℤ) × (get_eeprom_value name c e ≡ (pos 0, some old, c))
          × (set_eeprom_value name old c e'
              ≡ (pos 0, c, record e { initialized_for_connected_device = pos 0 })))
unfolding value_of assign get_eeprom_value set_eeprom_value
set_eeprom_value-get_eeprom_value EepromValue.vendor_id v c e h =
    (refl, refl, refl, refl, (_, refl, refl))
set_eeprom_value-get_eeprom_value EepromValue.product_id v c e h =
    (refl, refl, refl, refl, (_, refl, refl))
set_eeprom_value-get_eeprom_value EepromValue.self_powered v c e h =
    (refl, refl, refl, refl, (_, refl, refl))
set_eeprom_value-get_eeprom_value EepromValue.remote_wakeup v c e h =
    (refl, refl, refl, refl, (_, refl, refl))
set_eeprom_value-get_eeprom_value EepromValue.is_not_pnp v c e h =
    (refl, refl, refl, refl, (_, refl, refl))
set_eeprom_value-get_eeprom_value EepromValue.suspend_dbus7 v c e h =
    (refl, refl, refl, refl, (_, refl, refl))
set_eeprom_value-get_eeprom_value EepromValue.in_is_isochronous v c e h =
    (refl, refl, refl, refl, (_, refl, refl))
set_eeprom_value-get_eeprom_value EepromValue.out_is_isochronous v c e h =
    (refl, refl, refl, refl, (_, refl, refl))
set_eeprom_value-get_eeprom_value EepromValue.suspend_pull_downs v c e h =
    (refl, refl, refl, refl, (_, refl, refl))
set_eeprom_value-get_eeprom_value EepromValue.use_serial v c e h =
    (refl, refl, refl, refl, (_, refl, refl))
set_eeprom_value-get_eeprom_value EepromValue.usb_version v c e h =
    (refl, refl, refl, refl, (_, refl, refl))
set_eeprom_value-get_eeprom_value EepromValue.use_usb_version v c e h =
    (refl, refl, refl, refl, (_, refl, refl))
set_eeprom_value-get_eeprom_value EepromValue.max_power v c e h =
    (refl, refl, refl, refl, (_, refl, refl))
set_eeprom_value-get_eeprom_value EepromValue.channel_a_type v c e h =
    (refl, refl, refl, refl, (_, refl, refl))
set_eeprom_value-get_eeprom_value EepromValue.channel_b_type v c e h =
    (refl, refl, refl, refl, (_, refl, refl))
set_eeprom_value-get_eeprom_value EepromValue.channel_a_driver v c e h =
    (refl, refl, refl, refl, (_, refl, refl))
set_eeprom_value-get_eeprom_value EepromValue.channel_b_driver v c e h =
    (refl, refl, refl, refl, (_, refl, refl))
set_eeprom_value-get_eeprom_value EepromValue.cbus_function_0 v c e h =
    (refl, refl, refl, refl, (_, refl, cbus_back 0 v c e))
set_eeprom_value-get_eeprom_value EepromValue.cbus_function_1 v c e h =
    (refl, refl, refl, refl, (_, refl, cbus_back 1 v c e))
set_eeprom_value-get_eeprom_value EepromValue.cbus_function_2 v c e h =
    (refl, refl, refl, refl, (_, refl, cbus_back 2 v c e))
set_eeprom_value-get_eeprom_value EepromValue.cbus_function_3 v c e h =
    (refl, refl, refl, refl, (_, refl, cbus_back 3 v c e))
set_eeprom_value-get_eeprom_value EepromValue.cbus_function_4 v c e h =
    (refl, refl, refl, refl, (_, refl, cbus_back 4 v c e))
set_eeprom_value-get_eeprom_value EepromValue.cbus_function_5 v c e h =
    (refl, refl, refl, refl, (_, refl, cbus_back 5 v c e))
set_eeprom_value-get_eeprom_value EepromValue.cbus_function_6 v c e h =
    (refl, refl, refl, refl, (_, refl, cbus_back 6 v c e))
set_eeprom_value-get_eeprom_value EepromValue.cbus_function_7 v c e h =
    (refl, refl, refl, refl, (_, refl, cbus_back 7 v c e))
set_eeprom_value-get_eeprom_value EepromValue.cbus_function_8 v c e h =
    (refl, refl, refl, refl, (_, refl, cbus_back 8 v c e))
set_eeprom_value-get_eeprom_value EepromValue.cbus_function_9 v c e h =
    (refl, refl, refl, refl, (_, refl, cbus_back 9 v c e))
set_eeprom_value-get_eeprom_value EepromValue.high_current v c e h =
    (refl, refl, refl, refl, (_, refl, refl))
set_eeprom_value-get_eeprom_value EepromValue.high_current_a v c e h =
    (refl, refl, refl, refl, (_, refl, refl))
set_eeprom_value-get_eeprom_value EepromValue.high_current_b v c e h =
    (refl, refl, refl, refl, (_, refl, refl))
set_eeprom_value-get_eeprom_value EepromValue.invert v c e h =
    (refl, refl, refl, refl, (_, refl, refl))
set_eeprom_value-get_eeprom_value EepromValue.group0_drive v c e h =
    (refl, refl, refl, refl, (_, refl, refl))
set_eeprom_value-get_eeprom_value EepromValue.group0_schmitt v c e h =
    (refl, refl, refl, refl, (_, refl, refl))
set_eeprom_value-get_eeprom_value EepromValue.group0_slew v c e h =
    (refl, refl, refl, refl, (_, refl, refl))
set_eeprom_value-get_eeprom_value EepromValue.group1_drive v c e h =
    (refl, refl, refl, refl, (_, refl, refl))
set_eeprom_value-get_eeprom_value EepromValue.group1_schmitt v c e h =
    (refl, refl, refl, refl, (_, refl, refl))
set_eeprom_value-get_eeprom_value EepromValue.group1_slew v c e h =
    (refl, refl, refl, refl, (_, refl, refl))
set_eeprom_value-get_eeprom_value EepromValue.group2_drive v c e h =
    (refl, refl, refl, refl, (_, refl, refl))
set_eeprom_value-get_eeprom_value EepromValue.group2_schmitt v c e h =
    (refl, refl, refl, refl, (_, refl, refl))
set_eeprom_value-get_eeprom_value EepromValue.group2_slew v c e h =
    (refl, refl, refl, refl, (_, refl, refl))
set_eeprom_value-get_eeprom_value EepromValue.group3_drive v c e h =
    (refl, refl, refl, refl, (_, refl, refl))
set_eeprom_value-get_eeprom_value EepromValue.group3_schmitt v c e h =
    (refl, refl, refl, refl, (_, refl, refl))
set_eeprom_value-get_eeprom_value EepromValue.group3_slew v c e h =
    (refl, refl, refl, refl, (_, refl, refl))
set_eeprom_value-get_eeprom_value EepromValue.chip_size v c e h = absurd (ground arith)
set_eeprom_value-get_eeprom_value EepromValue.chip_type v c e h =
    (refl, refl, refl, refl, (_, refl, refl))
set_eeprom_value-get_eeprom_value EepromValue.power_save v c e h =
    (refl, refl, refl, refl, (_, refl, refl))
set_eeprom_value-get_eeprom_value EepromValue.clock_polarity v c e h =
    (refl, refl, refl, refl, (_, refl, refl))
set_eeprom_value-get_eeprom_value EepromValue.data_order v c e h =
    (refl, refl, refl, refl, (_, refl, refl))
set_eeprom_value-get_eeprom_value EepromValue.flow_control v c e h =
    (refl, refl, refl, refl, (_, refl, refl))
set_eeprom_value-get_eeprom_value EepromValue.channel_c_driver v c e h =
    (refl, refl, refl, refl, (_, refl, refl))
set_eeprom_value-get_eeprom_value EepromValue.channel_d_driver v c e h =
    (refl, refl, refl, refl, (_, refl, refl))
set_eeprom_value-get_eeprom_value EepromValue.channel_a_rs485 v c e h =
    (refl, refl, refl, refl, (_, refl, refl))
set_eeprom_value-get_eeprom_value EepromValue.channel_b_rs485 v c e h =
    (refl, refl, refl, refl, (_, refl, refl))
set_eeprom_value-get_eeprom_value EepromValue.channel_c_rs485 v c e h =
    (refl, refl, refl, refl, (_, refl, refl))
set_eeprom_value-get_eeprom_value EepromValue.channel_d_rs485 v c e h =
    (refl, refl, refl, refl, (_, refl, refl))
set_eeprom_value-get_eeprom_value EepromValue.release_number v c e h =
    (refl, refl, refl, refl, (_, refl, refl))
set_eeprom_value-get_eeprom_value EepromValue.external_oscillator v c e h =
    (refl, refl, refl, refl, (_, refl, refl))
set_eeprom_value-get_eeprom_value EepromValue.user_data_addr v c e h = absurd (ground arith)
set_eeprom_value-get_eeprom_value (EepromValue.other n) v c e h = absurd (ground arith)
