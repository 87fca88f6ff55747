-- ===== src/BitField.antt =====
-- include/rafi/common/BitField.h: named fields of an unsigned integer. `BaseInteger` has `w` bits;
-- values are numbers below `2 ^ w`, and `~mask` is `2 ^ w - 1 - mask`.
pub mod Laws
pub mod Powers
pub mod Members
use rafi_emu.Common.{ℕ, ◌+◌, ◌-◌, ◌*◌, ◌/◌, ◌%◌, ◌^◌, bit_and, bit_or}

-- `BitFieldMember<BaseInteger, msb, lsb>`.
pub record Member : Type 0 where
  pub msb : ℕ
  pub lsb : ℕ

-- `Member<bit>`, a field of one bit.
abbrev pub bit : ℕ → Member
bit n = record { msb = n; lsb = n }

abbrev pub bits : ℕ → ℕ → Member
bits msb lsb = record { msb = msb; lsb = lsb }

abbrev pub width : Member → ℕ
width m = m.msb - m.lsb + 1

abbrev pub mask : Member → ℕ
mask m = (2 ^ width m - 1) * 2 ^ m.lsb

unfoldable pub get_member : Member → ℕ → ℕ
get_member m v = bit_and v (mask m) / 2 ^ m.lsb

unfoldable pub get_with_mask : ℕ → ℕ → ℕ
get_with_mask v m = bit_and v m

-- `SetWithMask`: the bits of `mask` come from `value`, the others stay.
unfoldable pub set_with_mask : ℕ → ℕ → ℕ → ℕ → ℕ
set_with_mask w v value m = bit_or (bit_and v (2 ^ w - 1 - m)) (bit_and value m)

unfoldable pub set_member : ℕ → Member → ℕ → ℕ → ℕ
set_member w m v value =
    bit_or (bit_and v (2 ^ w - 1 - mask m)) (bit_and (value * 2 ^ m.lsb % 2 ^ w) (mask m))
