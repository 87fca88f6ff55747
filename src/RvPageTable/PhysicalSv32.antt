-- ===== src/RvPageTable/PhysicalSv32.antt =====
-- The fields of `PhysicalAddressSv32` in include/rafi/common/RvPageTable.h.
use rafi_emu.Common.{ℕ}
use rafi_emu.BitField.{Member, bits, set_member}

abbrev pub ppn : Member
ppn = bits 33 12

abbrev pub ppn1 : Member
ppn1 = bits 33 22

abbrev pub ppn0 : Member
ppn0 = bits 21 12

abbrev pub offset : Member
offset = bits 11 0

-- `PhysicalAddressSv32(ppn, offset)`.
unfoldable pub of_ppn : ℕ → ℕ → ℕ
of_ppn ppn' offset' = set_member 64 offset (set_member 64 ppn 0 ppn') offset'

-- `PhysicalAddressSv32(ppn1, ppn0, offset)`.
unfoldable pub of_parts : ℕ → ℕ → ℕ → ℕ
of_parts ppn1' ppn0' offset' =
    set_member 64 offset (set_member 64 ppn0 (set_member 64 ppn1 0 ppn1') ppn0') offset'
