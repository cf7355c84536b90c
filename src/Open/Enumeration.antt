-- ===== src/Open/Enumeration.antt =====
-- What the library uses of libusb to find and to open devices, which is no part of the repository, and
-- what it reads of the descriptors. A `libusb_device *` and a handle are addresses.
use libsgftdi.Base.{
  ℕ, ℤ, List, Option, none, some, Bool, true, false, String, is_negative, if◌then◌else◌,
}
use libsgftdi.Usb.{Host, Action, ◌>>=◌, ◌>>◌, outside, pure, update, error_return, done}
use libsgftdi.Device.{usb_close_internal}

-- struct libusb_device_descriptor
pub record Descriptor : Type 0 where
  pub vendor : ℕ
  pub product : ℕ
  pub bcd_device : ℕ
  pub product_string : ℕ
  pub manufacturer_string : ℕ
  pub serial_number : ℕ
  pub num_configurations : ℕ

-- struct libusb_config_descriptor: its value, and the packet sizes of the endpoints of every alternate
-- setting of every interface.
pub record Config : Type 0 where
  pub configuration_value : ℕ
  pub interfaces : List (List (List ℕ))

-- Each operation that has a return code gives it first.
pub record Enumeration (W : Type 0) : Type 0 where
  pub get_device_list : Option ℕ → W → ℤ × List ℕ × W
  pub free_device_list : List ℕ → W → W
  pub ref_device : ℕ → W → W
  pub unref_device : ℕ → W → W
  pub get_device_descriptor : ℕ → W → ℤ × Descriptor × W
  pub get_config_descriptor : ℕ → W → ℤ × Config × W
  pub bus_number : ℕ → ℕ
  pub device_address : ℕ → ℕ
  pub open_device : ℕ → W → ℤ × ℕ × W
  pub get_string : ℕ → ℕ → ℕ → W → ℤ × List ℕ × W
  pub detach_kernel_driver : ℕ → ℕ → W → ℤ × W
  pub set_auto_detach : ℕ → W → ℤ × W
  pub errno : W → ℕ
  pub get_configuration : ℕ → W → ℤ × ℕ × W
  pub set_configuration : ℕ → ℕ → W → ℤ × W
  pub claim_interface : ℕ → ℕ → W → ℤ × W

module _ {W : Type 0} (enum : Enumeration W) where
  -- The macro ftdi_error_return_free_device_list, if the condition holds.
  abbrev pub fail_if : Bool → List ℕ → ℤ → String → Action W (Unit {0})
  fail_if true devs code str =
      outside (λ w. (tt, enum.free_device_list devs w)) >> error_return code str
  fail_if false devs code str = pure tt

  -- libusb_open(dev, &ftdi->usb_dev), which stores the handle if it succeeds.
  abbrev pub open_usb : ℕ → Action W (ℤ × ℕ)
  open_usb dev = do
    (r, handle) ← outside λ w. (let (r, handle, w') = enum.open_device dev w in ((r, handle), w'))
    update λ c. if is_negative r then c else record c { usb_dev = some handle }
    pure (r, handle)

  abbrev pub descriptor_of : ℕ → Action W (ℤ × Descriptor)
  descriptor_of dev =
      outside λ w. (let (r, desc, w') = enum.get_device_descriptor dev w in ((r, desc), w'))

  abbrev pub config_of : ℕ → Action W (ℤ × Config)
  config_of dev =
      outside λ w. (let (r, config, w') = enum.get_config_descriptor dev w in ((r, config), w'))

-- ftdi_usb_close_internal
abbrev pub close : {W : Type 0} → Host W → Action W (Unit {0})
close host s = elim s.ftdi [
  | none ↦ (done tt, s)
  | some c ↦
      let (c', w) = usb_close_internal host c s.world in
      (done tt, record { ftdi = some c'; world = w })
]
