-- ===== src/Eeprom/Chips.antt =====
-- The part of ftdi_eeprom_build that depends on the type of the chip.
use libsgftdi.Base.{
  ℕ, zero, suc, ◌+◌, ◌*◌, ◌%◌, ℤ, pos, word, ltb_ℤ, store, bit_or, bit_and, ◌<<<◌, is_nonzero,
}
use libsgftdi.Base.{if◌then◌else◌}
use libsgftdi.Context.{Eeprom, ChipType}
use libsgftdi.Eeprom.Bytes.{
  byte, byte_8, or_at, flag, flag_on, use_usb_version_bit, suspend_dbus7_bit,
}
use libsgftdi.Eeprom.Bytes.{driver_vcp, driver_vcph, high_current_drive, high_current_drive_r}
use libsgftdi.Eeprom.Bytes.{slow_slew, is_schmitt, channel_is_rs485, power_save_disable_h}
use libsgftdi.Eeprom.Mode.{type2bit}

abbrev Image : Type 0
Image = ℕ → ℕ

-- output[0x0C] and output[0x0D]
abbrev put_usb_version : Eeprom → Image → Image
put_usb_version e output =
    let output = store 0x0c (bit_and (word e.usb_version) 0xff) output in
    store 0x0d (byte_8 e.usb_version) output

unfoldable pub put_bm : Eeprom → Image → Image
put_bm e output =
    let output = put_usb_version e output in flag e.use_usb_version 0x0a use_usb_version_bit output

unfoldable pub put_2232c : Eeprom → Image → Image
put_2232c e output =
    let output = store 0x00 (type2bit (byte e.channel_a_type) ChipType.type_2232c) output in
    let output = flag e.channel_a_driver 0x00 driver_vcp output in
    let output = flag e.high_current_a 0x00 high_current_drive output in
    let output = store 0x01 (type2bit (byte e.channel_b_type) ChipType.type_2232c) output in
    let output = flag e.channel_b_driver 0x01 driver_vcp output in
    let output = flag e.high_current_b 0x01 high_current_drive output in
    let output = flag e.in_is_isochronous 0x0a 0x1 output in
    let output = flag e.out_is_isochronous 0x0a 0x2 output in
    let output = flag e.suspend_pull_downs 0x0a 0x4 output in
    let output = flag e.use_usb_version 0x0a use_usb_version_bit output in
    let output = put_usb_version e output in store 0x14 (byte e.chip) output

-- A function of a CBUS pin, or `default` if it is above `most`.
abbrev pin : ℤ → ℕ → ℕ → ℕ
pin z most default = if ltb_ℤ (pos most) z then default else word z

-- output[k] = low pin; output[k] |= high pin << 4;
abbrev put_pins : ℕ → ℕ → ℕ → Image → Image
put_pins k low high output =
    let output = store k (low % 256) output in or_at k ((high <<< 4) % 256) output

-- The last CBUS functions of an FT232R are CBUS_BB_RD 12 and, for the fifth pin, CBUS_CLK6 9.
unfoldable pub put_r : Eeprom → Image → Image
put_r e output =
    let f = e.cbus_function in
    let output = store 0x00 (type2bit (byte e.channel_a_type) ChipType.type_r) output in
    let output = flag_on e.high_current 0x00 high_current_drive_r output in
    let inverted = if is_nonzero e.channel_a_driver then pos 0 else pos 1 in
    let output = flag inverted 0x00 driver_vcp output in
    let output = flag_on e.external_oscillator 0x00 0x02 output in
    let output = store 0x01 0x40 output in
    let output = flag e.suspend_pull_downs 0x0a 0x4 output in
    let output = store 0x0b (byte e.invert) output in
    let output = put_usb_version e output in
    let output = put_pins 0x14 (pin (f 0) 0x0c 3) (pin (f 1) 0x0c 2) output in
    let output = put_pins 0x15 (pin (f 2) 0x0c 0) (pin (f 3) 0x0c 1) output in
    store 0x16 (pin (f 4) 9 5 % 256) output

-- The drive, the Schmitt trigger and the slew of a group, `shift` places up in output[k].
abbrev put_group : ℕ → ℕ → ℤ → ℤ → ℤ → Image → Image
put_group k shift drive schmitt slew output =
    let output = or_at k ((pin drive 3 3 <<< shift) % 256) output in
    let output = flag_on schmitt k (is_schmitt <<< shift) output in
    flag_on slew k (slow_slew <<< shift) output

abbrev put_groups : Eeprom → Image → Image
put_groups e output =
    let output = put_group 0x0c 0 e.group0_drive e.group0_schmitt e.group0_slew output in
    let output = put_group 0x0c 4 e.group1_drive e.group1_schmitt e.group1_slew output in
    let output = put_group 0x0d 0 e.group2_drive e.group2_schmitt e.group2_slew output in
    put_group 0x0d 4 e.group3_drive e.group3_schmitt e.group3_slew output

unfoldable pub put_2232h : Eeprom → Image → Image
put_2232h e output =
    let output = store 0x00 (type2bit (byte e.channel_a_type) ChipType.type_2232h) output in
    let output = flag e.channel_a_driver 0x00 driver_vcp output in
    let output = store 0x01 (type2bit (byte e.channel_b_type) ChipType.type_2232h) output in
    let output = flag e.channel_b_driver 0x01 driver_vcp output in
    let output = flag e.suspend_dbus7 0x01 suspend_dbus7_bit output in
    let output = flag e.suspend_pull_downs 0x0a 0x4 output in
    let output = put_groups e output in store 0x18 (byte e.chip) output

unfoldable pub put_4232h : Eeprom → Image → Image
put_4232h e output =
    let output = flag e.channel_a_driver 0x00 driver_vcp output in
    let output = flag e.channel_b_driver 0x01 driver_vcp output in
    let output = flag e.channel_c_driver 0x00 (driver_vcp <<< 4) output in
    let output = flag e.channel_d_driver 0x01 (driver_vcp <<< 4) output in
    let output = flag e.suspend_pull_downs 0x0a 0x4 output in
    let output = flag e.channel_a_rs485enable 0x0b (channel_is_rs485 <<< 0) output in
    let output = flag e.channel_b_rs485enable 0x0b (channel_is_rs485 <<< 1) output in
    let output = flag e.channel_c_rs485enable 0x0b (channel_is_rs485 <<< 2) output in
    let output = flag e.channel_d_rs485enable 0x0b (channel_is_rs485 <<< 3) output in
    let output = put_groups e output in store 0x18 (byte e.chip) output

-- One round for two pins: above CBUSH_CLK7_5 12 a function becomes CBUSH_TRISTATE.
abbrev put_cbush : Eeprom → ℕ → Image → Image
put_cbush e i output =
    let mode_low = pin (e.cbus_function (2 * i)) 12 0 in
    let mode_high = pin (e.cbus_function (2 * i + 1)) 12 0 in
    store (0x18 + i) (bit_or (mode_high <<< 4) mode_low % 256) output

-- for(i=0; i<5; i++)
unfoldable pub set_ft232h_cbus : Eeprom → Image → Image
set_ft232h_cbus e output =
    put_cbush e 4 (put_cbush e 3 (put_cbush e 2 (put_cbush e 1 (put_cbush e 0 output))))

unfoldable pub put_232h : Eeprom → Image → Image
put_232h e output =
    let output = store 0x00 (type2bit (byte e.channel_a_type) ChipType.type_232h) output in
    let output = flag e.channel_a_driver 0x00 driver_vcph output in
    let output = flag e.powersave 0x01 power_save_disable_h output in
    let output = flag e.suspend_pull_downs 0x0a 0x4 output in
    let output = flag e.clock_polarity 0x01 0x01 output in
    let output = flag e.data_order 0x01 0x02 output in
    let output = flag e.flow_control 0x01 0x04 output in
    let output = put_group 0x0c 0 e.group0_drive e.group0_schmitt e.group0_slew output in
    let output = put_group 0x0d 0 e.group1_drive e.group1_schmitt e.group1_slew output in
    let output = set_ft232h_cbus e output in store 0x1e (byte e.chip) output

-- for (j = 0; j <= 6; j++), with `rounds` left
abbrev put_cbusx : Eeprom → ℕ → Image → Image
put_cbusx e zero output = output
put_cbusx e (suc j) output = store (0x1a + j) (byte (e.cbus_function j)) (put_cbusx e j output)

unfoldable pub put_230x : Eeprom → Image → Image
put_230x e output =
    let output = store 0x00 0x80 output in
    let output = store 0x0c 0 output in
    let output = put_cbusx e 7 output in store 0x0b (byte e.invert) output

-- Bytes and Bits specific to (some) types
unfoldable pub put_specific : ChipType → Eeprom → Image → Image
put_specific ChipType.type_am e output = output
put_specific ChipType.type_bm e output = put_bm e output
put_specific ChipType.type_2232c e output = put_2232c e output
put_specific ChipType.type_r e output = put_r e output
put_specific ChipType.type_2232h e output = put_2232h e output
put_specific ChipType.type_4232h e output = put_4232h e output
put_specific ChipType.type_232h e output = put_232h e output
put_specific ChipType.type_230x e output = put_230x e output
