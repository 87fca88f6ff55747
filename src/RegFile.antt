-- ===== src/RegFile.antt =====
-- The register files and the reservation of src/rafi-emu/cpu: IntRegFile.cpp, FpRegFile.cpp and AtomicManager.cpp.
-- An `Entry` is a union of a 64-bit value and of two 32-bit ones; on a little-endian host the first
-- of the two is the low half. A signed or floating value is its bits.
pub mod Atomic
pub mod Integer
pub mod Floating
pub mod Laws
use rafi_emu.Common.{
  ℕ, ◌+◌, ◌*◌, ◌/◌, ◌^◌, List, get_elem?, set, ltb, if◌then◌else◌, length, Option, none, some,
  Outcome, ok, undefined,
}
use rafi_emu.Word.{u32}

-- `m_Entries[regId]`: past the end it has no meaning.
abbrev pub entry_at : List ℕ → ℕ → Outcome ℕ
entry_at entries reg_id = elim (get_elem? entries reg_id) [ some e ↦ ok e | none ↦ undefined ]

-- `m_Entries[regId] = entry`.
abbrev pub entry_set : List ℕ → ℕ → ℕ → Outcome (List ℕ)
entry_set entries reg_id entry =
    if ltb reg_id (length entries) then ok (set entries reg_id entry) else undefined

-- `u32.value = value`, which keeps the high half.
abbrev pub with_low : ℕ → ℕ → ℕ
with_low entry value = entry / 2 ^ 32 * 2 ^ 32 + u32 value
