-- ===== src/Device/Extended.antt =====
-- ftdi_init_ex, ftdi_new_ex, ftdi_deinit_ex and ftdi_free_ex of src/ftdi_ex.h, for a context of libusb
-- that belongs to the caller, and ftdi_new and ftdi_free of src/ftdi.c.
use libsgftdi.Base.{ℕ, ℤ, pos, minus, is_nonzero, not, if◌then◌else◌, Option, none, some}
use libsgftdi.Context.{Context, ChipType, DetachMode, zeroed}
use libsgftdi.Usb.{Host, Sys, Function, ◌>>=◌, ◌>>◌, body, update, outside, call, error_if}
use libsgftdi.Device.Interface.{set_interface}
use libsgftdi.Device.Chunksize.{read_data_set_chunksize}
use libsgftdi.Device.Life.{init, deinit, usb_close_internal}

-- memset(ftdi, 0, sizeof(struct ftdi_context))
abbrev pub cleared : Context
cleared = record {
  usb_ctx = none;
  usb_dev = none;
  usb_read_timeout = 0;
  usb_write_timeout = 0;
  chip_type = ChipType.type_am;
  baudrate = pos 0;
  bitbang_enabled = 0;
  readbuffer = none;
  readbuffer_offset = 0;
  readbuffer_remaining = 0;
  readbuffer_chunksize = 0;
  writebuffer_chunksize = 0;
  max_packet_size = 0;
  interface = 0;
  index = 0;
  in_ep = 0;
  out_ep = 0;
  bitbang_mode = 0;
  eeprom = none;
  error_str = none;
  module_detach_mode = DetachMode.auto_detach;
}

module _ {W : Type 0} (host : Host W) where
  -- `size` is sizeof(struct ftdi_eeprom).
  unfoldable pub init_ex : ℕ → Option ℕ → Function W ℤ
  init_ex size usb_ctx = body do
    granted ← outside (host.alloc size)
    update λ c. record c {
      usb_ctx = usb_ctx;
      usb_dev = none;
      usb_read_timeout = 5000;
      usb_write_timeout = 5000;
      chip_type = ChipType.type_bm;
      baudrate = minus 1;
      bitbang_enabled = 0;
      readbuffer = none;
      readbuffer_offset = 0;
      readbuffer_remaining = 0;
      writebuffer_chunksize = 4096;
      max_packet_size = 0;
      error_str = none;
      module_detach_mode = DetachMode.auto_detach;
    }
    call (set_interface 0)
    update λ c. record c { bitbang_mode = 1 }
    error_if (not granted) (minus 2) "Can't malloc struct ftdi_eeprom"
    update λ c. record c { eeprom = some zeroed }
    call (read_data_set_chunksize host 4096)

  -- What a function that makes a context returns after its initialisation: NULL if that has failed.
  abbrev kept : ℤ × Sys W → Option Context × W
  kept (r, s) = (if is_nonzero r then none else s.ftdi, s.world)

  -- `ctx_size` is sizeof(struct ftdi_context).
  unfoldable pub new_ex : ℕ → ℕ → Option ℕ → W → Option Context × W
  new_ex ctx_size size usb_ctx w =
      let (granted, w1) = host.alloc ctx_size w in
      if granted
      then kept (init_ex size usb_ctx (record { ftdi = some cleared; world = w1 }))
      else (none, w1)

  unfoldable pub deinit_ex : Sys W → Sys W
  deinit_ex s = elim s.ftdi [
    | none ↦ s
    | some c ↦
        let (c', w) = usb_close_internal host c s.world in
        record {
          ftdi = some (record c' { readbuffer = none; eeprom = none; usb_ctx = none });
          world = w;
        }
  ]

  unfoldable pub free_ex : Sys W → Sys W
  free_ex s = record (deinit_ex s) { ftdi = none }

  -- `garbage` is what malloc finds in the memory of the new context.
  unfoldable pub new : ℕ → ℕ → Context → W → Option Context × W
  new ctx_size size garbage w =
      let (granted, w1) = host.alloc ctx_size w in
      if granted
      then kept (init host size (record { ftdi = some garbage; world = w1 }))
      else (none, w1)

  unfoldable pub free : Sys W → Sys W
  free s = record (deinit host s) { ftdi = none }
