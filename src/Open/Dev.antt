-- ===== src/Open/Dev.antt =====
-- ftdi_usb_open_dev and _ftdi_determine_max_packet_size, on a device that is not NULL. The memory of
-- a configuration descriptor is a value, and errno is read right after the call that set it.
use libsgftdi.Base.{
  ℕ, ℤ, zero, suc, pos, minus, is_negative, is_nonzero, List, [], ◌∷◌, ltb, ◌==◌, ◌&&◌, ◌||◌, not,
  String,
}
use libsgftdi.Base.{if◌then◌else◌}
use libsgftdi.Context.{Context, ChipType, DetachMode, is_hi_speed}
use libsgftdi.Usb.{Host, Function, Action, ◌>>=◌, ◌>>◌, body, pure, outside, update, context, call}
use libsgftdi.Usb.{error_if, error_return}
use libsgftdi.Control.{usb_reset}
use libsgftdi.Baud.{set_baudrate}
use libsgftdi.Open.Enumeration.{Enumeration, Descriptor, open_usb, descriptor_of, config_of, close}

-- "Try to guess chip type", which keeps the type if the release is not known.
unfoldable pub chip_of : Descriptor → ChipType → ChipType
chip_of desc kind =
    if desc.bcd_device == 0x400 || (desc.bcd_device == 0x200 && desc.serial_number == 0)
    then ChipType.type_bm
    else if desc.bcd_device == 0x200
    then ChipType.type_am
    else if desc.bcd_device == 0x500
    then ChipType.type_2232c
    else if desc.bcd_device == 0x600
    then ChipType.type_r
    else if desc.bcd_device == 0x700
    then ChipType.type_2232h
    else if desc.bcd_device == 0x800
    then ChipType.type_4232h
    else if desc.bcd_device == 0x900
    then ChipType.type_232h
    else if desc.bcd_device == 0x1000
    then ChipType.type_230x
    else kind

abbrev default_size : ChipType → ℕ
default_size kind = if is_hi_speed kind then 512 else 64

-- The packet size of the first endpoint of the first setting, if there is one.
abbrev first_endpoint : List (List ℕ) → ℕ → ℕ
first_endpoint [] size = size
first_endpoint ([] ∷ settings) size = size
first_endpoint ((packet_size ∷ endpoints) ∷ settings) size = packet_size

-- config0->interface[i], if there are so many
abbrev endpoint_of : List (List (List ℕ)) → ℕ → ℕ → ℕ
endpoint_of [] i size = size
endpoint_of (settings ∷ interfaces) zero size = first_endpoint settings size
endpoint_of (settings ∷ interfaces) (suc i) size = endpoint_of interfaces i size

-- if (detach_errno == EPERM), which is 1
abbrev pub refuse : {W : Type 0} {A : Type 0} → ℕ → ℤ → String → Action W A
refuse detach_errno code str =
    if detach_errno == 1
    then error_return (minus 8) "inappropriate permissions on device!"
    else error_return code str

module _ {W : Type 0} (host : Host W) (enum : Enumeration W) where
  unfoldable pub determine_max_packet_size : Context → ℕ → W → ℕ × W
  determine_max_packet_size c dev w =
      let packet_size = default_size c.chip_type in
      let (r, desc, w1) = enum.get_device_descriptor dev w in
      let (r', config0, w2) = enum.get_config_descriptor dev w1 in
      if is_negative r
      then (packet_size, w1)
      else if is_negative r'
      then (packet_size, w2)
      else if ltb 0 desc.num_configurations
      then (endpoint_of config0.interfaces c.interface packet_size, w2)
      else (packet_size, w2)

  -- errno after a call that did not return 0
  abbrev errno_after : (W → ℤ × W) → Action W ℕ
  errno_after f =
      outside λ w. (let (r, w') = f w in (if is_nonzero r then enum.errno w' else 0, w'))

  abbrev pub detach : DetachMode → ℕ → ℕ → Action W ℕ
  detach DetachMode.auto_detach handle interface =
      errno_after (enum.detach_kernel_driver handle interface)
  detach DetachMode.auto_detach_reattach handle interface =
      errno_after (enum.set_auto_detach handle)
  detach DetachMode.dont_detach handle interface = pure 0

  -- A call that must not fail; if it does, the device is closed.
  abbrev pub or_close : (W → ℤ × W) → ℕ → ℤ → String → Action W (Unit {0})
  or_close f detach_errno code str = outside f >>= after
    where
      after : ℤ → Action W (Unit {0})
      after r = if is_negative r then close host >> refuse detach_errno code str else pure tt

  abbrev pub configure : Descriptor → ℕ → ℕ → ℕ → ℕ → Action W (Unit {0})
  configure desc handle cfg cfg0 detach_errno =
      if ltb 0 desc.num_configurations && not (cfg == cfg0)
      then or_close (enum.set_configuration handle cfg0) detach_errno (minus 3)
          "unable to set usb configuration. Make sure the default FTDI driver is not in use"
      else pure tt

  -- The chip type and the packet size.
  abbrev pub recognise : Descriptor → ℕ → Action W (Unit {0})
  recognise desc dev = do
    update λ c. record c { chip_type = chip_of desc c.chip_type }
    c ← context (minus 8) "ftdi context invalid"
    packet_size ← outside (determine_max_packet_size c dev)
    update λ c. record c { max_packet_size = packet_size }

  -- A function of the library that must return 0; if it does not, the device is closed.
  abbrev pub must : Function W ℤ → ℤ → String → Action W (Unit {0})
  must f code str = call f >>= after
    where
      after : ℤ → Action W (Unit {0})
      after r = if is_nonzero r then close host >> error_return code str else pure tt

  abbrev pub configuration : ℕ → Action W (ℤ × ℕ)
  configuration handle =
      outside λ w. (let (r, cfg, w') = enum.get_configuration handle w in ((r, cfg), w'))

  -- Claiming the interface and setting up the chip.
  abbrev pub set_up : Descriptor → ℕ → Context → ℕ → ℕ → Action W ℤ
  set_up desc dev c handle detach_errno = do
    or_close (enum.claim_interface handle c.interface) detach_errno (minus 5)
        "unable to claim usb device. Make sure the default FTDI driver is not in use"
    must (usb_reset host) (minus 6) "ftdi_usb_reset failed"
    recognise desc dev
    must (set_baudrate host (pos 9600)) (minus 7) "set baudrate failed"
    error_return (pos 0) "all fine"

  -- The kernel's driver, and the configuration.
  abbrev pub prepare : Descriptor → ℕ → Context → ℕ → ℕ → Action W ℤ
  prepare desc dev c handle cfg0 = do
    detach_errno ← detach c.module_detach_mode handle c.interface
    (r, cfg) ← configuration handle
    error_if (is_negative r) (minus 12) "libusb_get_configuration () failed"
    configure desc handle cfg cfg0 detach_errno
    set_up desc dev c handle detach_errno

  -- What the device says of itself.
  abbrev pub examine : ℕ → Context → ℕ → Action W ℤ
  examine dev c handle = do
    (r, desc) ← descriptor_of enum dev
    error_if (is_negative r) (minus 9) "libusb_get_device_descriptor() failed"
    (r, config0) ← config_of enum dev
    error_if (is_negative r) (minus 10) "libusb_get_config_descriptor() failed"
    prepare desc dev c handle config0.configuration_value

  abbrev pub open_steps : ℕ → Action W ℤ
  open_steps dev = do
    c ← context (minus 8) "ftdi context invalid"
    (r, handle) ← open_usb enum dev
    error_if (is_negative r) (minus 4) "libusb_open() failed"
    examine dev c handle

  unfoldable pub open_dev : ℕ → Function W ℤ
  open_dev dev = body (open_steps dev)
