-- ===== src/RvPageTable/VirtualSv39.antt =====
-- The fields of `VirtualAddressSv39` in include/rafi/common/RvPageTable.h.
use rafi_emu.BitField.{Member, bits}

abbrev pub offset : Member
offset = bits 11 0

abbrev pub vpn0 : Member
vpn0 = bits 20 12

abbrev pub vpn1 : Member
vpn1 = bits 29 21

abbrev pub vpn2 : Member
vpn2 = bits 38 30
