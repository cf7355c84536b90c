-- ===== src/Tests/Memory.antt =====
-- Erasing a 93x56 on a bench whose outside world is the memory.
use libsgftdi.Base.{
  ℕ, ◌+◌, ◌/◌, ◌%◌, ◌==◌, ◌≡◌, refl, [], ◌∷◌, length, pos, some, true, store, if◌then◌else◌,
}
use libsgftdi.Base.{◌<◌, ◌≤◌, arith}
use libsgftdi.Context.{Context, ChipType, Eeprom, zeroed}
use libsgftdi.Control.Wire.{system}
use libsgftdi.Usb.{Host}
use libsgftdi.Eeprom.Access.{erase_eeprom, with_chip}
use libsgftdi.Eeprom.Memory.{IsMemory, MemoryType, erase_eeprom_lem}
use libsgftdi.Eeprom.Image.{write_eeprom}
use libsgftdi.Eeprom.Written.{IsCalm, word_of_image, write_eeprom_lem}
use libsgftdi.Control.{forget_read}
use libsgftdi.Eeprom.Load.{read_eeprom}
use libsgftdi.Eeprom.Loaded.{IsRead, read_eeprom-IsRead}
use libsgftdi.Eeprom.Reread.{write_eeprom-read_eeprom}
use libsgftdi.Tests.Bench.{opened}

abbrev memory_bench : Host (ℕ → ℕ)
memory_bench = record {
  control_out = λ dev setup w. (
    pos 0,
    if setup.request == 0x92
        then (λ k. 0xffff)
        else if setup.request == 0x91
        then store (setup.index % 0x80) setup.value w
        else w,
  );
  control_in = λ dev setup size w.
      (pos 2, w (setup.index % 0x80) % 256 ∷ w (setup.index % 0x80) / 256 % 256 ∷ [], w);
  bulk_out = λ dev ep l timeout w. (pos 0, length l, w);
  bulk_in = λ dev ep size timeout w. (pos 0, [], w);
  release_interface = λ dev interface w. (pos 0, w);
  close = λ dev w. w;
  init = λ w. (pos 0, 7, w);
  exit = λ usb w. w;
  alloc = λ size w. (true, w);
}

memory_bench-IsMemory : IsMemory memory_bench 5 0x80 (λ w. w)
memory_bench-IsMemory = record {
  erased = λ value index timeout w. (refl, refl);
  written = λ value index timeout w. (refl, refl);
  loaded = λ index timeout w. (refl, refl, refl);
}

abbrev external : Context
external = record opened { chip_type = ChipType.type_bm }

erase_eeprom_lem_example :
    let (code, s) = erase_eeprom memory_bench (system external (λ k. k)) in
    (code ≡ pos 0) × (s.world ≡ (λ k. 0xffff)) × (s.ftdi ≡ some (with_chip (pos 0x56) external))
erase_eeprom_lem_example =
    erase_eeprom_lem memory_bench external 5 (λ k. k) refl refl (λ w. w) MemoryType.type_93x56
      memory_bench-IsMemory

memory_bench-IsCalm : IsCalm memory_bench 5 (λ w. w)
memory_bench-IsCalm = record {
  reset = λ index timeout w. (refl, refl);
  latency = λ value index timeout w. (refl, refl);
  status = λ index timeout w. (refl, refl);
}

abbrev built : Eeprom
built = record zeroed { initialized_for_connected_device = pos 1; size = pos 4; buf = λ k. 7 }

write_eeprom_lem_example :
    let (code, s) =
      write_eeprom memory_bench (system (record external { eeprom = some built }) (λ k. k)) in
    (code ≡ pos 0)
    × ((k : ℕ) → k < 2 → s.world k ≡ word_of_image built.buf k)
    × ((k : ℕ) → 2 ≤ k → s.world k ≡ k)
write_eeprom_lem_example =
    write_eeprom_lem memory_bench (record external { eeprom = some built }) 5 (λ k. k) refl
      (omega arith) 0x80 (λ w. w) memory_bench-IsMemory memory_bench-IsCalm (λ i. refl) built refl
      refl (λ k. omega arith) (omega arith) (omega arith)

write_eeprom-read_eeprom_example :
    let there = record external { eeprom = some built } in
    let r = read_eeprom memory_bench (write_eeprom memory_bench (system there (λ k. k))).1 in
    (r.0 ≡ pos 0)
    × (e' : Eeprom) × (r.1.ftdi ≡ some (record (forget_read there) { eeprom = some e' }))
    × ((k : ℕ) → k < 4 → e'.buf k ≡ 7)
write_eeprom-read_eeprom_example =
    write_eeprom-read_eeprom memory_bench (record external { eeprom = some built }) 5 (λ k. k) refl
      (omega arith) 0x80 (λ w. w) memory_bench-IsMemory memory_bench-IsCalm (λ i. refl) built refl
      refl (λ k. omega arith) (omega arith) (omega arith)

read_eeprom-IsRead_example :
    IsRead memory_bench external 5 0x80
      (λ w. w)
      memory_bench-IsMemory
      zeroed
      (λ k. k + 1)
      (read_eeprom memory_bench (system external (λ k. k + 1)))
read_eeprom-IsRead_example =
    read_eeprom-IsRead memory_bench external 5 0x80 (λ w. w) memory_bench-IsMemory refl zeroed refl
      (λ k. k + 1)
