-- ===== src/Device/Life.antt =====
-- ftdi_init, ftdi_set_usbdev, ftdi_usb_close and ftdi_deinit, on a context that is not NULL except
-- where they test it. Memory that is freed is a pointer that becomes NULL.
use libsgftdi.Base.{ℕ, ℤ, pos, minus, negsuc, is_negative, not, if◌then◌else◌, Option, none, some}
use libsgftdi.Context.{Context, Eeprom, ChipType, DetachMode, zeroed}
use libsgftdi.Usb.{Host, Sys, Function, Action, ◌>>=◌, ◌>>◌, body, update, outside, pure, call}
use libsgftdi.Usb.{error_if}
use libsgftdi.Device.Interface.{set_interface}
use libsgftdi.Device.Chunksize.{read_data_set_chunksize}

-- The first assignments of ftdi_init.
abbrev pub defaults : Context → Context
defaults c = record c {
  usb_ctx = none;
  usb_dev = none;
  usb_read_timeout = 5000;
  usb_write_timeout = 5000;
  chip_type = ChipType.type_bm;
  baudrate = negsuc 0;
  bitbang_enabled = 0;
  readbuffer = none;
  readbuffer_offset = 0;
  readbuffer_remaining = 0;
  writebuffer_chunksize = 4096;
  max_packet_size = 0;
  error_str = none;
  module_detach_mode = DetachMode.auto_detach;
}

abbrev not_built : Option Eeprom → Option Eeprom
not_built none = none
not_built (some e) = some (record e { initialized_for_connected_device = pos 0 })

module _ {W : Type 0} (host : Host W) where
  -- libusb_init(&ftdi->usb_ctx), which stores the context if it succeeds.
  abbrev libusb_init : Action W ℤ
  libusb_init = do
    (r, usb) ← outside λ w. (let (r, usb, w') = host.init w in ((r, usb), w'))
    update λ c. if is_negative r then c else record c { usb_ctx = some usb }
    pure r

  -- `size` is sizeof(struct ftdi_eeprom).
  unfoldable pub init : ℕ → Function W ℤ
  init size = body do
    update defaults
    r ← libusb_init
    error_if (is_negative r) (minus 3) "libusb_init() failed"
    call (set_interface 0)
    update λ c. record c { bitbang_mode = 1 }
    granted ← outside (host.alloc size)
    error_if (not granted) (minus 2) "Can't malloc struct ftdi_eeprom"
    update λ c. record c { eeprom = some zeroed }
    call (read_data_set_chunksize host 4096)

  unfoldable pub usb_close_internal : Context → W → Context × W
  usb_close_internal c w = elim c.usb_dev [
    | none ↦ (c, w)
    | some dev ↦ (record c { usb_dev = none; eeprom = not_built c.eeprom }, host.close dev w)
  ]

  abbrev release : Context → W → ℤ × W
  release c w = elim c.usb_dev [
    | none ↦ (pos 0, w)
    | some dev ↦
        let (r, w') = host.release_interface dev c.interface w in
        (if is_negative r then minus 1 else pos 0, w')
  ]

  unfoldable pub usb_close : Function W ℤ
  usb_close s = elim s.ftdi [
    | none ↦ (minus 3, s)
    | some c ↦
        let (rtn, w) = release c s.world in
        let (c', w') = usb_close_internal c w in (rtn, record { ftdi = some c'; world = w' })
  ]

  abbrev exit_usb : Option ℕ → W → W
  exit_usb none w = w
  exit_usb (some usb) w = host.exit usb w

  unfoldable pub deinit : Sys W → Sys W
  deinit s = elim s.ftdi [
    | none ↦ s
    | some c ↦
        let (c', w) = usb_close_internal c s.world in
        record {
          ftdi = some (record c' { readbuffer = none; eeprom = none; usb_ctx = none });
          world = exit_usb c'.usb_ctx w;
        }
  ]

unfoldable pub set_usbdev : {W : Type 0} → Option ℕ → Sys W → Sys W
set_usbdev usb s = elim s.ftdi [
  | none ↦ s
  | some c ↦ record s { ftdi = some (record c { usb_dev = usb }) }
]
