-- ===== src/Tests/Bench.antt =====
-- A host whose outside world counts the exchanges with the device, and contexts to use it with.
use libsgftdi.Base.{ℕ, ◌+◌, pos, negsuc, [], ◌∷◌, length, none, some, true}
use libsgftdi.Context.{Context, ChipType, DetachMode, zeroed}
use libsgftdi.Usb.{Host}

abbrev pub bench : Host ℕ
bench = record {
  control_out = λ dev setup w. (pos 0, w + 1);
  control_in = λ dev setup size w. (pos 2, 1 ∷ 96 ∷ [], w + 1);
  bulk_out = λ dev ep l timeout w. (pos 0, length l, w + 1);
  bulk_in = λ dev ep size timeout w. (pos 0, 1 ∷ 96 ∷ 10 ∷ 11 ∷ 1 ∷ 96 ∷ 12 ∷ [], w + 1);
  release_interface = λ dev interface w. (pos 0, w + 1);
  close = λ dev w. w + 1;
  init = λ w. (pos 0, 7, w + 1);
  exit = λ usb w. w + 1;
  alloc = λ size w. (true, w);
}

-- An open chip with packets of four bytes, on its first channel.
abbrev pub opened : Context
opened = record {
  usb_ctx = some 7;
  usb_dev = some 5;
  usb_read_timeout = 5000;
  usb_write_timeout = 5000;
  chip_type = ChipType.type_r;
  baudrate = negsuc 0;
  bitbang_enabled = 0;
  readbuffer = some (λ k. 0);
  readbuffer_offset = 0;
  readbuffer_remaining = 0;
  readbuffer_chunksize = 4096;
  writebuffer_chunksize = 2;
  max_packet_size = 4;
  interface = 0;
  index = 1;
  in_ep = 2;
  out_ep = 129;
  bitbang_mode = 1;
  eeprom = some zeroed;
  error_str = none;
  module_detach_mode = DetachMode.auto_detach;
}

abbrev pub closed : Context
closed = record opened { usb_dev = none }
