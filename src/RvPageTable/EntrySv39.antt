-- ===== src/RvPageTable/EntrySv39.antt =====
-- The fields of `PageTableEntrySv39` in include/rafi/common/RvPageTable.h.
use rafi_emu.BitField.{Member, bit, bits}

abbrev pub v : Member
v = bit 0

abbrev pub r : Member
r = bit 1

abbrev pub w : Member
w = bit 2

abbrev pub e : Member
e = bit 3

abbrev pub u : Member
u = bit 4

abbrev pub g : Member
g = bit 5

abbrev pub a : Member
a = bit 6

abbrev pub d : Member
d = bit 7

abbrev pub rsw : Member
rsw = bits 9 8

abbrev pub ppn0 : Member
ppn0 = bits 18 10

abbrev pub ppn1 : Member
ppn1 = bits 27 19

abbrev pub ppn2 : Member
ppn2 = bits 53 28
