-- ===== src/Device/Interface.antt =====
-- ftdi_set_interface. An `enum ftdi_interface` is its value: INTERFACE_ANY 0, INTERFACE_A to D 1 to 4.
use libsgftdi.Base.{ℕ, ℤ, pos, minus, Bool, false, not, ◌||◌, ◌==◌, if◌then◌else◌}
use libsgftdi.Base.{none, some}
use libsgftdi.Context.{Context}
use libsgftdi.Usb.{
  Function, Action, ◌>>=◌, ◌>>◌, body, context, update, pure, error_if, error_return,
}

abbrev pub channel : ℕ → ℕ → ℕ → ℕ → Context → Context
channel interface index in_ep out_ep c = record c {
  interface = interface;
  index = index;
  in_ep = in_ep;
  out_ep = out_ep;
}

-- Another channel than the one in use, on an open device.
abbrev pub is_locked : ℕ → Context → Bool
is_locked interface c = elim c.usb_dev [
  | none ↦ false
  | some dev ↦
      let check_interface = if interface == 0 then 1 else interface in
      not (c.index == check_interface)
]

module _ {W : Type 0} where
  abbrev switch : ℕ → Action W ℤ
  switch interface =
      if interface == 0 || interface == 1
      then update (channel 0 1 0x02 0x81) >> pure (pos 0)
      else if interface == 2
      then update (channel 1 2 0x04 0x83) >> pure (pos 0)
      else if interface == 3
      then update (channel 2 3 0x06 0x85) >> pure (pos 0)
      else if interface == 4
      then update (channel 3 4 0x08 0x87) >> pure (pos 0)
      else error_return (minus 1) "Unknown interface"

  unfoldable pub set_interface : ℕ → Function W ℤ
  set_interface interface = body do
    c ← context (minus 2) "USB device unavailable"
    error_if (is_locked interface c) (minus 3)
        "Interface can not be changed on an already open device"
    switch interface
