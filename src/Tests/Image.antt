-- ===== src/Tests/Image.antt =====
-- An image that is built and decoded.
use libsgftdi.Base.{
  ◌≡◌, refl, [], ◌∷◌, pos, minus, some, false, arith, inl, is_negative, ◌≤◌, pos_part,
}
use libsgftdi.Context.{Context, ChipType, Eeprom, zeroed}
use libsgftdi.Control.Wire.{system}
use libsgftdi.Eeprom.Build.{
  eeprom_build, sized, user_area_size, is_too_long, with_image, with_user_data,
}
use libsgftdi.Eeprom.Decode.{eeprom_decode}
use libsgftdi.Eeprom.Text.{put_strings}
use libsgftdi.Eeprom.Wrap.{put_strings-below}
use libsgftdi.Eeprom.Roundtrip.{with_eeprom, filled, eeprom_build-build_code, build_code}
use libsgftdi.Eeprom.Identity.{IsCopy, eeprom_build-eeprom_decode, eeprom_build-accepted}
use libsgftdi.Tests.Bench.{bench, opened}

-- A 93x46 of 128 bytes, behind an FT232R.
abbrev named : Eeprom
named = record zeroed {
  vendor_id = pos 0x403;
  product_id = pos 0x16001;
  self_powered = pos 7;
  max_power = pos 101;
  manufacturer = some (70 ∷ 84 ∷ []);
  serial = some (49 ∷ []);
  size = minus 1;
  chip = pos 0x46;
}

abbrev board : Context
board = with_eeprom opened named

sized-named : (sized named).size ≡ pos 0x80
unfolding sized
sized-named = refl

room_named : build_code ChipType.type_r named ≡ pos 90
unfolding sized user_area_size is_too_long with_image
room_named = refl

unused_named :
    (2 ≤ pos_part (filled ChipType.type_r named).size)
    × (pos_part (filled ChipType.type_r named).size ≤ 256)
unfolding sized with_image with_user_data
unused_named = (omega arith, omega arith)

built_named : is_negative (eeprom_build bench (system board 1)).0 ≡ false
built_named =
    rw
      (
        eeprom_build-build_code bench board named 1 refl refl (omega (arith, unused_named)),
        room_named,
      )
      refl

eeprom_build-eeprom_decode_example :
    let (code, s) = eeprom_decode bench (eeprom_build bench (system board 1)).1 in
    (code ≡ pos 0) × (e' : Eeprom) × (s.ftdi ≡ some (with_eeprom board e')) × IsCopy named e'
eeprom_build-eeprom_decode_example =
    eeprom_build-eeprom_decode bench board named 1 refl refl (inl sized-named) refl built_named

eeprom_build-accepted_example :
    (eeprom_decode bench (eeprom_build bench (system board 1)).1).0 ≡ pos 0
eeprom_build-accepted_example =
    eeprom_build-accepted bench board named 1 refl refl (λ h. (refl, omega arith)) unused_named.0
      unused_named.1 built_named

put_strings-below_example : put_strings ChipType.type_2232c 0x7f named (λ k. k) 9 ≡ 9
put_strings-below_example =
    put_strings-below ChipType.type_2232c 0x7f named (λ k. k) 9 refl (omega arith) (omega arith)
      (omega arith)
