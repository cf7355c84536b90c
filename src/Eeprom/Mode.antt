-- ===== src/Eeprom/Mode.antt =====
-- type2bit and bit2type: the mode of a channel, and its bits in the image.
use libsgftdi.Base.{ℕ, ◌==◌, if◌then◌else◌}
use libsgftdi.Context.{ChipType}

-- The modes of the FT2232: CHANNEL_IS_UART 0, FIFO 1, OPTO 2 and CPU 4.
abbrev bits_2232 : ℕ → ℕ
bits_2232 type =
    if type == 1 then 0x01 else if type == 2 then 0x02 else if type == 4 then 0x04 else 0

-- The FT232H has FT1284 8 too.
abbrev bits_232h : ℕ → ℕ
bits_232h type = if type == 8 then 0x08 else bits_2232 type

unfoldable pub type2bit : ℕ → ChipType → ℕ
type2bit type ChipType.type_2232h = bits_2232 type
type2bit type ChipType.type_2232c = bits_2232 type
type2bit type ChipType.type_232h = bits_232h type
type2bit type ChipType.type_r = if type == 1 then 0x01 else 0
type2bit type _ = 0

-- A value of several bits is reported and taken for CHANNEL_IS_UART.
unfoldable pub bit2type : ℕ → ℕ
bit2type bits =
    if bits == 1
    then 1
    else if bits == 2
    then 2
    else if bits == 4
    then 4
    else if bits == 8
    then 8
    else 0
