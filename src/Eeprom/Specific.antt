-- ===== src/Eeprom/Specific.antt =====
-- The part of ftdi_eeprom_decode that depends on the type of the chip.
use libsgftdi.Base.{ℕ, zero, suc, ◌+◌, ◌*◌, ℤ, pos, minus, ◌==◌}
use libsgftdi.Base.{if◌then◌else◌, store, bit_and, ◌>>>◌, ◌<<<◌}
use libsgftdi.Context.{Eeprom, ChipType}
use libsgftdi.Eeprom.Bytes.{suspend_dbus7_bit}
use libsgftdi.Eeprom.Bytes.{driver_vcp, driver_vcph, high_current_drive, high_current_drive_r}
use libsgftdi.Eeprom.Bytes.{slow_slew, is_schmitt, channel_is_rs485, power_save_disable_h}
use libsgftdi.Eeprom.Mode.{bit2type}

-- !!(b & mask)
abbrev pub bit : ℕ → ℕ → ℤ
bit b mask = if bit_and b mask == 0 then pos 0 else pos 1

-- buf[k] + (buf[k + 1] << 8)
abbrev pub word_from : (ℕ → ℕ) → ℕ → ℤ
word_from buf k = pos (buf k + (buf (k + 1) <<< 8))

abbrev decode_2232c : Eeprom → Eeprom
decode_2232c e =
    let buf = e.buf in
    record e {
      channel_a_type = pos (bit2type (bit_and (buf 0x00) 0x7));
      channel_a_driver = bit (buf 0x00) driver_vcp;
      high_current_a = bit (buf 0x00) high_current_drive;
      channel_b_type = pos (bit_and (buf 0x01) 0x7);
      channel_b_driver = bit (buf 0x01) driver_vcp;
      high_current_b = bit (buf 0x01) high_current_drive;
      chip = pos (buf 0x14);
    }

-- buf[k] & 0x0f and (buf[k] >> 4) & 0x0f
abbrev low_pin : ℕ → ℤ
low_pin b = pos (bit_and b 0x0f)

abbrev high_pin : ℕ → ℤ
high_pin b = pos (bit_and (b >>> 4) 0x0f)

abbrev decode_r : Eeprom → Eeprom
decode_r e =
    let buf = e.buf in
    let f = store 0 (low_pin (buf 0x14)) e.cbus_function in
    let f = store 1 (high_pin (buf 0x14)) f in
    let f = store 2 (low_pin (buf 0x15)) f in
    let f = store 3 (high_pin (buf 0x15)) f in
    record e {
      channel_a_driver = if bit_and (buf 0x00) driver_vcp == 0 then pos 1 else pos 0;
      high_current = bit (buf 0x00) high_current_drive_r;
      external_oscillator = bit (buf 0x00) 0x02;
      chip = pos (buf 0x16);
      invert = pos (buf 0x0b);
      cbus_function = store 4 (low_pin (buf 0x16)) f;
    }

-- The drive of a group, and two of its bits, in the byte `b`.
abbrev drive : ℕ → ℤ
drive b = pos (bit_and b 3)

abbrev decode_groups : Eeprom → Eeprom
decode_groups e =
    let buf = e.buf in
    record e {
      chip = pos (buf 0x18);
      group0_drive = drive (buf 0x0c);
      group0_schmitt = bit (buf 0x0c) is_schmitt;
      group0_slew = bit (buf 0x0c) slow_slew;
      group1_drive = drive (buf 0x0c >>> 4);
      group1_schmitt = bit (buf 0x0c >>> 4) is_schmitt;
      group1_slew = bit (buf 0x0c >>> 4) slow_slew;
      group2_drive = drive (buf 0x0d);
      group2_schmitt = bit (buf 0x0d) is_schmitt;
      group2_slew = bit (buf 0x0d) slow_slew;
      group3_drive = drive (buf 0x0d >>> 4);
      group3_schmitt = bit (buf 0x0d >>> 4) is_schmitt;
      group3_slew = bit (buf 0x0d >>> 4) slow_slew;
    }

-- What the FT2232H and the FT4232H share.
abbrev decode_h : Eeprom → Eeprom
decode_h e = decode_groups (record e {
  channel_a_driver = bit (e.buf 0x00) driver_vcp;
  channel_b_driver = bit (e.buf 0x01) driver_vcp;
})

abbrev decode_2232h : Eeprom → Eeprom
decode_2232h e =
    let buf = e.buf in
    record (decode_h e) {
      channel_a_type = pos (bit2type (bit_and (buf 0x00) 0x7));
      channel_b_type = pos (bit2type (bit_and (buf 0x01) 0x7));
      suspend_dbus7 = bit (buf 0x01) suspend_dbus7_bit;
    }

abbrev decode_4232h : Eeprom → Eeprom
decode_4232h e =
    let buf = e.buf in
    record (decode_h e) {
      channel_c_driver = bit (buf 0x00 >>> 4) driver_vcp;
      channel_d_driver = bit (buf 0x01 >>> 4) driver_vcp;
      channel_a_rs485enable = bit (buf 0x0b) (channel_is_rs485 <<< 0);
      channel_b_rs485enable = bit (buf 0x0b) (channel_is_rs485 <<< 1);
      channel_c_rs485enable = bit (buf 0x0b) (channel_is_rs485 <<< 2);
      channel_d_rs485enable = bit (buf 0x0b) (channel_is_rs485 <<< 3);
    }

-- for(i=0; i<5; i++), with `rounds` left
abbrev pins_232h : ℕ → (ℕ → ℕ) → (ℕ → ℤ) → ℕ → ℤ
pins_232h zero buf f = f
pins_232h (suc i) buf f =
    let g = pins_232h i buf f in
    store (2 * i + 1) (high_pin (buf (0x18 + i))) (store (2 * i) (low_pin (buf (0x18 + i))) g)

abbrev decode_232h : Eeprom → Eeprom
decode_232h e =
    let buf = e.buf in
    record e {
      channel_a_type = pos (bit_and (buf 0x00) 0xf);
      channel_a_driver = bit (buf 0x00) driver_vcph;
      clock_polarity = bit (buf 0x01) 0x01;
      data_order = bit (buf 0x01) 0x02;
      flow_control = bit (buf 0x01) 0x04;
      powersave = bit (buf 0x01) power_save_disable_h;
      group0_drive = drive (buf 0x0c);
      group0_schmitt = bit (buf 0x0c) is_schmitt;
      group0_slew = bit (buf 0x0c) slow_slew;
      group1_drive = drive (buf 0x0d);
      group1_schmitt = bit (buf 0x0d) is_schmitt;
      group1_slew = bit (buf 0x0d) slow_slew;
      cbus_function = pins_232h 5 buf e.cbus_function;
      chip = pos (buf 0x1e);
    }

abbrev decode_230x : Eeprom → Eeprom
decode_230x e =
    let buf = e.buf in
    let f = store 0 (pos (bit_and (buf 0x1a) 0xff)) e.cbus_function in
    let f = store 1 (pos (bit_and (buf 0x1b) 0xff)) f in
    let f = store 2 (pos (bit_and (buf 0x1c) 0xff)) f in
    record e {
      cbus_function = store 3 (pos (bit_and (buf 0x1d) 0xff)) f;
      group0_drive = drive (buf 0x0c);
      group0_schmitt = bit (buf 0x0c) is_schmitt;
      group0_slew = bit (buf 0x0c) slow_slew;
      group1_drive = drive (buf 0x0c >>> 4);
      group1_schmitt = bit (buf 0x0c >>> 4) is_schmitt;
      group1_slew = bit (buf 0x0c >>> 4) slow_slew;
      invert = pos (buf 0x0b);
    }

unfoldable pub decode_specific : ChipType → Eeprom → Eeprom
decode_specific ChipType.type_am e = record e { channel_a_type = pos 0; chip = minus 1 }
decode_specific ChipType.type_bm e = record e { channel_a_type = pos 0; chip = minus 1 }
decode_specific ChipType.type_2232c e = decode_2232c e
decode_specific ChipType.type_r e = decode_r (record e { channel_a_type = pos 0 })
decode_specific ChipType.type_2232h e = decode_2232h e
decode_specific ChipType.type_4232h e = decode_4232h (record e { channel_a_type = pos 0 })
decode_specific ChipType.type_232h e = decode_232h e
decode_specific ChipType.type_230x e = decode_230x (record e { channel_a_type = pos 0 })
