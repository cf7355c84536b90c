-- ===== src/Context/Chip.antt =====
-- The enumerations of include/sgftdi/ftdi.h.
use libsgftdi.Base.{ℕ, Bool, true, false}

-- enum ftdi_chip_type
pub data ChipType : Type 0 where
  type_am type_bm type_2232c type_r type_2232h type_4232h type_232h type_230x : ChipType

-- The value of the enumerator, by which the code compares types.
abbrev pub type_value : ChipType → ℕ
type_value type_am = 0
type_value type_bm = 1
type_value type_2232c = 2
type_value type_r = 3
type_value type_2232h = 4
type_value type_4232h = 5
type_value type_232h = 6
type_value type_230x = 7

-- type == TYPE_2232H || type == TYPE_4232H || type == TYPE_232H
abbrev pub is_hi_speed : ChipType → Bool
is_hi_speed type_2232h = true
is_hi_speed type_4232h = true
is_hi_speed type_232h = true
is_hi_speed _ = false

-- enum ftdi_module_detach_mode
pub data DetachMode : Type 0 where
  auto_detach dont_detach auto_detach_reattach : DetachMode

-- enum ftdi_parity_type, ftdi_stopbits_type, ftdi_bits_type and ftdi_break_type
pub data Parity : Type 0 where
  none odd even mark space : Parity

pub data StopBits : Type 0 where
  stop_bit_1 stop_bit_15 stop_bit_2 : StopBits

pub data DataBits : Type 0 where
  bits_7 bits_8 : DataBits

pub data Break : Type 0 where
  break_off break_on : Break
