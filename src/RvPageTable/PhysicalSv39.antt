-- ===== src/RvPageTable/PhysicalSv39.antt =====
-- The fields of `PhysicalAddressSv39` in include/rafi/common/RvPageTable.h.
use rafi_emu.Common.{ℕ}
use rafi_emu.BitField.{Member, bits, set_member}

abbrev pub ppn : Member
ppn = bits 55 12

abbrev pub ppn2 : Member
ppn2 = bits 55 30

abbrev pub ppn1 : Member
ppn1 = bits 29 21

abbrev pub ppn0 : Member
ppn0 = bits 20 12

abbrev pub offset : Member
offset = bits 11 0

-- `PhysicalAddressSv39(ppn, offset)`.
unfoldable pub of_ppn : ℕ → ℕ → ℕ
of_ppn ppn' offset' = set_member 64 offset (set_member 64 ppn 0 ppn') offset'

-- `PhysicalAddressSv39(ppn2, ppn1, ppn0, offset)`.
unfoldable pub of_parts : ℕ → ℕ → ℕ → ℕ → ℕ
of_parts ppn2' ppn1' ppn0' offset' =
    set_member 64 offset
      (set_member 64 ppn0 (set_member 64 ppn1 (set_member 64 ppn2 0 ppn2') ppn1') ppn0') offset'
