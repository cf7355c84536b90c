-- ===== src/Context/EepromStruct.antt =====
-- struct ftdi_eeprom of src/ftdi_i.h. A C string is the list of its characters before the NUL, and a
-- null pointer is `none`; `cbus_function` and `buf` are arrays, as functions of the index.
use libsgftdi.Base.{ℕ, ℤ, pos, Option, none, List}

pub record Eeprom : Type 0 where
  pub vendor_id : ℤ
  pub product_id : ℤ
  pub initialized_for_connected_device : ℤ
  pub self_powered : ℤ
  pub remote_wakeup : ℤ
  pub is_not_pnp : ℤ
  pub suspend_dbus7 : ℤ
  pub in_is_isochronous : ℤ
  pub out_is_isochronous : ℤ
  pub suspend_pull_downs : ℤ
  pub use_serial : ℤ
  pub usb_version : ℤ
  pub use_usb_version : ℤ
  pub max_power : ℤ
  pub manufacturer : Option (List ℕ)
  pub product : Option (List ℕ)
  pub serial : Option (List ℕ)
  pub channel_a_type : ℤ
  pub channel_b_type : ℤ
  pub channel_a_driver : ℤ
  pub channel_b_driver : ℤ
  pub channel_c_driver : ℤ
  pub channel_d_driver : ℤ
  pub channel_a_rs485enable : ℤ
  pub channel_b_rs485enable : ℤ
  pub channel_c_rs485enable : ℤ
  pub channel_d_rs485enable : ℤ
  pub cbus_function : ℕ → ℤ
  pub high_current : ℤ
  pub high_current_a : ℤ
  pub high_current_b : ℤ
  pub invert : ℤ
  pub external_oscillator : ℤ
  pub group0_drive : ℤ
  pub group0_schmitt : ℤ
  pub group0_slew : ℤ
  pub group1_drive : ℤ
  pub group1_schmitt : ℤ
  pub group1_slew : ℤ
  pub group2_drive : ℤ
  pub group2_schmitt : ℤ
  pub group2_slew : ℤ
  pub group3_drive : ℤ
  pub group3_schmitt : ℤ
  pub group3_slew : ℤ
  pub powersave : ℤ
  pub clock_polarity : ℤ
  pub data_order : ℤ
  pub flow_control : ℤ
  pub user_data_addr : ℤ
  pub user_data_size : ℤ
  pub user_data : Option (List ℕ)
  pub size : ℤ
  pub chip : ℤ
  pub buf : ℕ → ℕ
  pub release_number : ℤ

-- memset(eeprom, 0, sizeof(struct ftdi_eeprom))
abbrev pub zeroed : Eeprom
zeroed = record {
  vendor_id = pos 0;
  product_id = pos 0;
  initialized_for_connected_device = pos 0;
  self_powered = pos 0;
  remote_wakeup = pos 0;
  is_not_pnp = pos 0;
  suspend_dbus7 = pos 0;
  in_is_isochronous = pos 0;
  out_is_isochronous = pos 0;
  suspend_pull_downs = pos 0;
  use_serial = pos 0;
  usb_version = pos 0;
  use_usb_version = pos 0;
  max_power = pos 0;
  manufacturer = none;
  product = none;
  serial = none;
  channel_a_type = pos 0;
  channel_b_type = pos 0;
  channel_a_driver = pos 0;
  channel_b_driver = pos 0;
  channel_c_driver = pos 0;
  channel_d_driver = pos 0;
  channel_a_rs485enable = pos 0;
  channel_b_rs485enable = pos 0;
  channel_c_rs485enable = pos 0;
  channel_d_rs485enable = pos 0;
  cbus_function = λ i. pos 0;
  high_current = pos 0;
  high_current_a = pos 0;
  high_current_b = pos 0;
  invert = pos 0;
  external_oscillator = pos 0;
  group0_drive = pos 0;
  group0_schmitt = pos 0;
  group0_slew = pos 0;
  group1_drive = pos 0;
  group1_schmitt = pos 0;
  group1_slew = pos 0;
  group2_drive = pos 0;
  group2_schmitt = pos 0;
  group2_slew = pos 0;
  group3_drive = pos 0;
  group3_schmitt = pos 0;
  group3_slew = pos 0;
  powersave = pos 0;
  clock_polarity = pos 0;
  data_order = pos 0;
  flow_control = pos 0;
  user_data_addr = pos 0;
  user_data_size = pos 0;
  user_data = none;
  size = pos 0;
  chip = pos 0;
  buf = λ i. 0;
  release_number = pos 0;
}
