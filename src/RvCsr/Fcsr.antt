-- ===== src/RvCsr/Fcsr.antt =====
-- The fields of `fcsr_t` in include/rafi/common/RvCsr.h.
use rafi_emu.Common.{ℕ, bit_or}
use rafi_emu.BitField.{Member, bit, bits, mask}

abbrev pub rm : Member
rm = bits 7 5

abbrev pub ae : Member
ae = bits 4 0

abbrev pub nv : Member
nv = bit 4

abbrev pub dz : Member
dz = bit 3

abbrev pub of : Member
of = bit 2

abbrev pub uf : Member
uf = bit 1

abbrev pub nx : Member
nx = bit 0

abbrev pub user_mask : ℕ
user_mask = bit_or (mask rm) (mask ae)
