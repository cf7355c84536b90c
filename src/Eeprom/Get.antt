-- ===== src/Eeprom/Get.antt =====
-- ftdi_get_eeprom_value, on a context with its EEPROM structure: NULL for either crashes the code.
use libsgftdi.Base.{ℤ, pos, minus, Option, none, some}
use libsgftdi.Context.{Context, Eeprom}
use libsgftdi.Eeprom.Name.{EepromValue}

-- The switch of ftdi_get_eeprom_value; `none` is its default.
unfoldable pub value_of : EepromValue → Eeprom → Option ℤ
value_of EepromValue.vendor_id e = some e.vendor_id
value_of EepromValue.product_id e = some e.product_id
value_of EepromValue.self_powered e = some e.self_powered
value_of EepromValue.remote_wakeup e = some e.remote_wakeup
value_of EepromValue.is_not_pnp e = some e.is_not_pnp
value_of EepromValue.suspend_dbus7 e = some e.suspend_dbus7
value_of EepromValue.in_is_isochronous e = some e.in_is_isochronous
value_of EepromValue.out_is_isochronous e = some e.out_is_isochronous
value_of EepromValue.suspend_pull_downs e = some e.suspend_pull_downs
value_of EepromValue.use_serial e = some e.use_serial
value_of EepromValue.usb_version e = some e.usb_version
value_of EepromValue.use_usb_version e = some e.use_usb_version
value_of EepromValue.max_power e = some e.max_power
value_of EepromValue.channel_a_type e = some e.channel_a_type
value_of EepromValue.channel_b_type e = some e.channel_b_type
value_of EepromValue.channel_a_driver e = some e.channel_a_driver
value_of EepromValue.channel_b_driver e = some e.channel_b_driver
value_of EepromValue.cbus_function_0 e = some (e.cbus_function 0)
value_of EepromValue.cbus_function_1 e = some (e.cbus_function 1)
value_of EepromValue.cbus_function_2 e = some (e.cbus_function 2)
value_of EepromValue.cbus_function_3 e = some (e.cbus_function 3)
value_of EepromValue.cbus_function_4 e = some (e.cbus_function 4)
value_of EepromValue.cbus_function_5 e = some (e.cbus_function 5)
value_of EepromValue.cbus_function_6 e = some (e.cbus_function 6)
value_of EepromValue.cbus_function_7 e = some (e.cbus_function 7)
value_of EepromValue.cbus_function_8 e = some (e.cbus_function 8)
value_of EepromValue.cbus_function_9 e = some (e.cbus_function 9)
value_of EepromValue.high_current e = some e.high_current
value_of EepromValue.high_current_a e = some e.high_current_a
value_of EepromValue.high_current_b e = some e.high_current_b
value_of EepromValue.invert e = some e.invert
value_of EepromValue.group0_drive e = some e.group0_drive
value_of EepromValue.group0_schmitt e = some e.group0_schmitt
value_of EepromValue.group0_slew e = some e.group0_slew
value_of EepromValue.group1_drive e = some e.group1_drive
value_of EepromValue.group1_schmitt e = some e.group1_schmitt
value_of EepromValue.group1_slew e = some e.group1_slew
value_of EepromValue.group2_drive e = some e.group2_drive
value_of EepromValue.group2_schmitt e = some e.group2_schmitt
value_of EepromValue.group2_slew e = some e.group2_slew
value_of EepromValue.group3_drive e = some e.group3_drive
value_of EepromValue.group3_schmitt e = some e.group3_schmitt
value_of EepromValue.group3_slew e = some e.group3_slew
value_of EepromValue.chip_size e = some e.size
value_of EepromValue.chip_type e = some e.chip
value_of EepromValue.power_save e = some e.powersave
value_of EepromValue.clock_polarity e = some e.clock_polarity
value_of EepromValue.data_order e = some e.data_order
value_of EepromValue.flow_control e = some e.flow_control
value_of EepromValue.channel_c_driver e = some e.channel_c_driver
value_of EepromValue.channel_d_driver e = some e.channel_d_driver
value_of EepromValue.channel_a_rs485 e = some e.channel_a_rs485enable
value_of EepromValue.channel_b_rs485 e = some e.channel_b_rs485enable
value_of EepromValue.channel_c_rs485 e = some e.channel_c_rs485enable
value_of EepromValue.channel_d_rs485 e = some e.channel_d_rs485enable
value_of EepromValue.release_number e = some e.release_number
value_of EepromValue.external_oscillator e = some e.external_oscillator
value_of _ e = none

unfoldable pub get_eeprom_value : EepromValue → Context → Eeprom → ℤ × Option ℤ × Context
get_eeprom_value name c e = elim (value_of name e) [
  | some v ↦ (pos 0, some v, c)
  | none ↦ (minus 1, none, record c { error_str = some "Request for unknown EEPROM value" })
]
