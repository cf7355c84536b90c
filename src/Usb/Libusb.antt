-- ===== src/Usb/Libusb.antt =====
-- libusb and malloc are not part of the repository: they are the operations of this record, over a
-- state `W` of the outside world that they may change in any way.
use libsgftdi.Base.{ℕ, ℤ, Bool, List}

-- The setup packet of a vendor request to the device, and the timeout.
pub record Setup : Type 0 where
  pub request : ℕ
  pub value : ℕ
  pub index : ℕ
  pub timeout : ℕ

pub record Host (W : Type 0) : Type 0 where
  -- libusb_control_transfer with FTDI_DEVICE_OUT_REQTYPE and no data: the return code
  pub control_out : ℕ → Setup → W → ℤ × W
  -- with FTDI_DEVICE_IN_REQTYPE, for so many bytes: the return code and what is in the buffer
  pub control_in : ℕ → Setup → ℕ → W → ℤ × List ℕ × W
  -- libusb_bulk_transfer to an endpoint, with a timeout: the return code and actual_length
  pub bulk_out : ℕ → ℕ → List ℕ → ℕ → W → ℤ × ℕ × W
  -- from an endpoint, at most so many bytes: the return code and the actual_length bytes received
  pub bulk_in : ℕ → ℕ → ℕ → ℕ → W → ℤ × List ℕ × W
  -- libusb_release_interface and libusb_close
  pub release_interface : ℕ → ℕ → W → ℤ × W
  pub close : ℕ → W → W
  -- libusb_init: the return code and the new context; libusb_exit
  pub init : W → ℤ × ℕ × W
  pub exit : ℕ → W → W
  -- malloc and realloc of so many bytes: whether they are granted
  pub alloc : ℕ → W → Bool × W
