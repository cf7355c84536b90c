-- ===== src/Tests/Open.antt =====
-- A bus with three devices, the last of which is no chip of FTDI, and a chip whose interface is taken.
use libsgftdi.Base.{
  none, some, arith, ℕ, ◌+◌, ◌*◌, ◌-◌, ◌&&◌, leb, Bool, true, List, ◌==◌, ◌≡◌, refl, [], ◌∷◌,
  length, pos, minus, false, if◌then◌else◌,
}
use libsgftdi.Control.Wire.{system}
use libsgftdi.Open.Enumeration.{Enumeration, Descriptor}
use libsgftdi.Open.Find.{find_all}
use libsgftdi.Open.Dev.{open_dev, chip_of}
use libsgftdi.Open.Listed.{select, is_asked, IsReadable, find_all-select}
use libsgftdi.Open.Closes.{is_open}
use libsgftdi.Open.Safe.{open_dev-closed}
use libsgftdi.Context.{ChipType}
use libsgftdi.Eeprom.Defaults.{default_fields, release_of}
use libsgftdi.Open.Recognised.{chip_of-default_fields}
use libsgftdi.Open.Strings.{Wanted, get_strings2, get_strings_ex}
use libsgftdi.Open.Steps.{Leaves, device_of}
use libsgftdi.Open.Handle.{get_strings-Leaves}
use libsgftdi.Open.Describe.{Reader, Number}
use libsgftdi.Tests.Bench.{bench, closed}

abbrev chip : ℕ → Descriptor
chip dev = record {
  vendor = if dev == 3 then 0x1234 else 0x403;
  product = 0x6001;
  bcd_device = 0x600;
  product_string = 1;
  manufacturer_string = 2;
  serial_number = 3;
  num_configurations = 1;
}

abbrev pub bus : Enumeration ℕ
bus = record {
  get_device_list = λ ctx w. (pos 3, 1 ∷ 2 ∷ 3 ∷ [], w + 1);
  free_device_list = λ devs w. w + 1;
  ref_device = λ dev w. w + 1;
  unref_device = λ dev w. w + 1;
  get_device_descriptor = λ dev w. (pos 0, chip dev, w + 1);
  get_config_descriptor = λ dev w.
      (pos 0, record { configuration_value = 1; interfaces = ((64 ∷ []) ∷ []) ∷ [] }, w + 1);
  bus_number = λ dev. 1;
  device_address = λ dev. dev;
  open_device = λ dev w. (pos 0, dev, w + 1);
  get_string = λ handle index size w. (pos 1, 65 ∷ [], w + 1);
  detach_kernel_driver = λ handle interface w. (minus 1, w + 1);
  set_auto_detach = λ handle w. (pos 0, w + 1);
  errno = λ w. 2;
  get_configuration = λ handle w. (pos 0, 1, w + 1);
  set_configuration = λ handle value w. (pos 0, w + 1);
  claim_interface = λ handle interface w. (minus 6, w + 1);
}

bus-IsReadable : IsReadable bench bus chip
bus-IsReadable = record { read = λ dev w. (refl, refl); granted = λ size w. refl }

find_all-select_example :
    let found = find_all bench bus 16 0 0 closed 1 in
    let wanted = select (λ dev. is_asked 0 0 (chip dev)) (1 ∷ 2 ∷ 3 ∷ []) in
    (found.devices ≡ wanted) × (found.code ≡ pos (length wanted)) × (found.context ≡ closed)
find_all-select_example = find_all-select bench bus chip bus-IsReadable 16 0 0 closed 1 refl

taken : (open_dev bench bus 2 (system closed 1)).0 ≡ minus 5
unfolding open_dev
taken = refl

open_dev-closed_example : is_open (open_dev bench bus 2 (system closed 1)).1 ≡ false
open_dev-closed_example = open_dev-closed bench bus 2 (system closed 1) (rw taken refl)

shown : (default_fields ChipType.type_r none none none).release_number ≡ pos (chip 1).bcd_device
unfolding default_fields release_of
shown = refl

chip_of-default_fields_example : chip_of (chip 1) ChipType.type_bm ≡ ChipType.type_r
chip_of-default_fields_example =
    chip_of-default_fields ChipType.type_r ChipType.type_bm none none none (chip 1) (omega arith)
      shown

abbrev wanted : Wanted
wanted = record { mnf_len = some 64; desc_len = none; serial_len = some 16 }

get_strings-Leaves_example :
    let (out, s') = get_strings2 bench bus (some 2) wanted (system closed 1) in
    let (out_ex, s_ex) = get_strings_ex bench bus (some 2) wanted (system closed 1) in
    Leaves out.0 none (device_of s'.ftdi) × Leaves out_ex.0 none (device_of s_ex.ftdi)
get_strings-Leaves_example = get_strings-Leaves bench bus (some 2) wanted (system closed 1)

-- A reader of decimal numbers, and texts of a vendor and a product.
abbrev is_digit : ℕ → Bool
is_digit x = leb 48 x && leb x 57

abbrev decimal : ℕ → Bool → List ℕ → Number
decimal n some_read [] = record { value = n; rest = []; some_read = some_read; has_errno = false }
decimal n some_read (x ∷ l) =
    let rest = decimal (n * 10 + (x - 48)) true l in
    if is_digit x
    then rest
    else record { value = n; rest = x ∷ l; some_read = some_read; has_errno = false }

abbrev digits : Reader
digits = record { strtoul = decimal 0 false; two_numbers = λ l. none }

-- 1027 and 24577
abbrev text : ℕ → List ℕ
text n = if n == 1027 then 49 ∷ 48 ∷ 50 ∷ 55 ∷ [] else 50 ∷ 52 ∷ 53 ∷ 55 ∷ 55 ∷ []
