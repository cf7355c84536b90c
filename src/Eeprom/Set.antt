-- ===== src/Eeprom/Set.antt =====
-- ftdi_set_eeprom_value.
use libsgftdi.Base.{ℤ, pos, minus, some, String, store}
use libsgftdi.Context.{Context, Eeprom}
use libsgftdi.Eeprom.Name.{EepromValue}

pub data Assigned : Type 0 where
  assigned : Eeprom → Assigned
  declined : ℤ → String → Assigned

-- The switch of ftdi_set_eeprom_value.
unfoldable pub assign : EepromValue → ℤ → Eeprom → Assigned
assign EepromValue.vendor_id v e = assigned (record e { vendor_id = v })
assign EepromValue.product_id v e = assigned (record e { product_id = v })
assign EepromValue.self_powered v e = assigned (record e { self_powered = v })
assign EepromValue.remote_wakeup v e = assigned (record e { remote_wakeup = v })
assign EepromValue.is_not_pnp v e = assigned (record e { is_not_pnp = v })
assign EepromValue.suspend_dbus7 v e = assigned (record e { suspend_dbus7 = v })
assign EepromValue.in_is_isochronous v e = assigned (record e { in_is_isochronous = v })
assign EepromValue.out_is_isochronous v e = assigned (record e { out_is_isochronous = v })
assign EepromValue.suspend_pull_downs v e = assigned (record e { suspend_pull_downs = v })
assign EepromValue.use_serial v e = assigned (record e { use_serial = v })
assign EepromValue.usb_version v e = assigned (record e { usb_version = v })
assign EepromValue.use_usb_version v e = assigned (record e { use_usb_version = v })
assign EepromValue.max_power v e = assigned (record e { max_power = v })
assign EepromValue.channel_a_type v e = assigned (record e { channel_a_type = v })
assign EepromValue.channel_b_type v e = assigned (record e { channel_b_type = v })
assign EepromValue.channel_a_driver v e = assigned (record e { channel_a_driver = v })
assign EepromValue.channel_b_driver v e = assigned (record e { channel_b_driver = v })
assign EepromValue.cbus_function_0 v e =
    assigned (record e { cbus_function = store 0 v e.cbus_function })
assign EepromValue.cbus_function_1 v e =
    assigned (record e { cbus_function = store 1 v e.cbus_function })
assign EepromValue.cbus_function_2 v e =
    assigned (record e { cbus_function = store 2 v e.cbus_function })
assign EepromValue.cbus_function_3 v e =
    assigned (record e { cbus_function = store 3 v e.cbus_function })
assign EepromValue.cbus_function_4 v e =
    assigned (record e { cbus_function = store 4 v e.cbus_function })
assign EepromValue.cbus_function_5 v e =
    assigned (record e { cbus_function = store 5 v e.cbus_function })
assign EepromValue.cbus_function_6 v e =
    assigned (record e { cbus_function = store 6 v e.cbus_function })
assign EepromValue.cbus_function_7 v e =
    assigned (record e { cbus_function = store 7 v e.cbus_function })
assign EepromValue.cbus_function_8 v e =
    assigned (record e { cbus_function = store 8 v e.cbus_function })
assign EepromValue.cbus_function_9 v e =
    assigned (record e { cbus_function = store 9 v e.cbus_function })
assign EepromValue.high_current v e = assigned (record e { high_current = v })
assign EepromValue.high_current_a v e = assigned (record e { high_current_a = v })
assign EepromValue.high_current_b v e = assigned (record e { high_current_b = v })
assign EepromValue.invert v e = assigned (record e { invert = v })
assign EepromValue.group0_drive v e = assigned (record e { group0_drive = v })
assign EepromValue.group0_schmitt v e = assigned (record e { group0_schmitt = v })
assign EepromValue.group0_slew v e = assigned (record e { group0_slew = v })
assign EepromValue.group1_drive v e = assigned (record e { group1_drive = v })
assign EepromValue.group1_schmitt v e = assigned (record e { group1_schmitt = v })
assign EepromValue.group1_slew v e = assigned (record e { group1_slew = v })
assign EepromValue.group2_drive v e = assigned (record e { group2_drive = v })
assign EepromValue.group2_schmitt v e = assigned (record e { group2_schmitt = v })
assign EepromValue.group2_slew v e = assigned (record e { group2_slew = v })
assign EepromValue.group3_drive v e = assigned (record e { group3_drive = v })
assign EepromValue.group3_schmitt v e = assigned (record e { group3_schmitt = v })
assign EepromValue.group3_slew v e = assigned (record e { group3_slew = v })
assign EepromValue.chip_size v e = declined (minus 2) "EEPROM Value can't be changed"
assign EepromValue.chip_type v e = assigned (record e { chip = v })
assign EepromValue.power_save v e = assigned (record e { powersave = v })
assign EepromValue.clock_polarity v e = assigned (record e { clock_polarity = v })
assign EepromValue.data_order v e = assigned (record e { data_order = v })
assign EepromValue.flow_control v e = assigned (record e { flow_control = v })
assign EepromValue.channel_c_driver v e = assigned (record e { channel_c_driver = v })
assign EepromValue.channel_d_driver v e = assigned (record e { channel_d_driver = v })
assign EepromValue.channel_a_rs485 v e = assigned (record e { channel_a_rs485enable = v })
assign EepromValue.channel_b_rs485 v e = assigned (record e { channel_b_rs485enable = v })
assign EepromValue.channel_c_rs485 v e = assigned (record e { channel_c_rs485enable = v })
assign EepromValue.channel_d_rs485 v e = assigned (record e { channel_d_rs485enable = v })
assign EepromValue.release_number v e = assigned (record e { release_number = v })
assign EepromValue.external_oscillator v e = assigned (record e { external_oscillator = v })
assign EepromValue.user_data_addr v e = assigned (record e { user_data_addr = v })
assign _ v e = declined (minus 1) "Request to unknown EEPROM value"

unfoldable pub set_eeprom_value : EepromValue → ℤ → Context → Eeprom → ℤ × Context × Eeprom
set_eeprom_value name value c e = elim (assign name value e) [
  | assigned e' ↦ (pos 0, c, record e' { initialized_for_connected_device = pos 0 })
  | declined code str ↦ (code, record c { error_str = some str }, e)
]
