-- ===== src/Eeprom/Name.antt =====
-- enum ftdi_eeprom_value of include/sgftdi/ftdi.h, and any number that is none of its values.
use libsgftdi.Base.{ℕ}

pub data EepromValue : Type 0 where
  vendor_id product_id self_powered remote_wakeup is_not_pnp suspend_dbus7 in_is_isochronous
        out_is_isochronous suspend_pull_downs use_serial usb_version use_usb_version max_power
        channel_a_type channel_b_type channel_a_driver channel_b_driver cbus_function_0
        cbus_function_1 cbus_function_2 cbus_function_3 cbus_function_4 cbus_function_5
        cbus_function_6 cbus_function_7 cbus_function_8 cbus_function_9 high_current high_current_a
        high_current_b invert group0_drive group0_schmitt group0_slew group1_drive group1_schmitt
        group1_slew group2_drive group2_schmitt group2_slew group3_drive group3_schmitt group3_slew
        chip_size chip_type power_save clock_polarity data_order flow_control channel_c_driver
        channel_d_driver channel_a_rs485 channel_b_rs485 channel_c_rs485 channel_d_rs485
        release_number external_oscillator user_data_addr :
      EepromValue
  other : ℕ → EepromValue
