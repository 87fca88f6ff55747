-- ===== src/RvPageTable/VirtualSv32.antt =====
-- The fields of `VirtualAddressSv32` in include/rafi/common/RvPageTable.h.
use rafi_emu.BitField.{Member, bits}

abbrev pub offset : Member
offset = bits 11 0

abbrev pub vpn0 : Member
vpn0 = bits 21 12

abbrev pub vpn1 : Member
vpn1 = bits 31 22

abbrev pub offset_l1 : Member
offset_l1 = bits 21 0
