-- ===== src/MemoryAccessUnit/WalkSv32.antt =====
-- `CheckTrapSv32` and `TranslateSv32` of src/rafi-emu/cpu/MemoryAccessUnit.cpp as instances of the walk, and how a
-- translation follows a check.
use rafi_emu.Common.{
  ℕ, ◌*◌, Bool, ◌==◌, not, Option, none, some, ok, List, [], ◌∷◌, ◌≡◌, refl, sym, ap, ◌∙◌,
}
use rafi_emu.BitField.{get_member}
use rafi_emu.Word.{u32, zero_extend}
use rafi_emu.RvTypes.{MemoryAccessType}
use rafi_emu.RvCsr.Satp
use rafi_emu.RvPageTable.EntrySv32 as Entry
use rafi_emu.RvPageTable.PhysicalSv32 as Physical
use rafi_emu.RvPageTable.VirtualSv32 as Virtual
use rafi_emu.Trap.{Trap}
use rafi_emu.Csr.{Csr}
use rafi_emu.Bus.{Bus, Io}
use rafi_emu.MemoryAccessUnit.{M, ◌>>◌, pure, is_store, update_entry, Translation, fault, address}
use rafi_emu.MemoryAccessUnit.Sv32.{entry_type, check_trap_sv32, translate_sv32}
use rafi_emu.MemoryAccessUnit.Walk.{
  Leaf, find_leaf, part, Level, walk, walk-Completes, check_leaf, check_last, translate_leaf,
  check_leaf-Completes, check_last-Completes,
}
use rafi_emu.MemoryAccessUnit.PageOffset.{KeepsOffset, offset_kept_sv32}

-- The address of an entry of the root table, and of the table that an entry points to.
root : Csr → ℕ → ℕ
root c index =
    Physical.of_ppn (get_member Satp.ppn_rv32 c.supervisor_address_translation_protection)
      (4 * index)

next : ℕ → ℕ → ℕ
next entry index =
    Physical.of_parts (get_member Entry.ppn1 entry) (get_member Entry.ppn0 entry) (4 * index)

-- A leaf of level 1 is not aligned.
misaligned_1 : ℕ → Bool
misaligned_1 entry = not (get_member Entry.ppn0 entry == 0)

-- The physical address by a leaf below `depth` tables: the parts of the page number below the leaf
-- come from `addr`. The code cuts it to 32 bits.
abbrev pub physical : ℕ → ℕ → ℕ → ℕ
physical addr depth entry = zero_extend 32 (
    Physical.of_parts (get_member Entry.ppn1 entry)
      (part 1 depth (get_member Entry.ppn0 entry) (get_member Virtual.vpn0 (u32 addr)))
      (get_member Virtual.offset (u32 addr)))

pub physical-offset : (addr depth entry : ℕ) → KeepsOffset addr (physical addr depth entry)
unfolding Physical.of_parts
physical-offset addr depth entry = offset_kept_sv32 _ addr

-- The leaf that the page tables have for `addr`.
pub find_sv32 : {D : Type 0} ⦃io : Io D⦄ → Csr → ℕ → M D Leaf
find_sv32 c addr =
    find_leaf entry_type next 0 (root c (get_member Virtual.vpn1 (u32 addr)))
      (get_member Virtual.vpn0 (u32 addr) ∷ [])

module _ {D : Type 0} ⦃io : Io D⦄ (c : Csr) (access : MemoryAccessType) (pc addr : ℕ) where
  check_levels : List (Level D (Option Trap))
  check_levels =
      (record {
        index = get_member Virtual.vpn0 (u32 addr);
        leaf = check_last c entry_type access pc addr;
      })
      ∷ []

  translate_levels : List (Level D Translation)
  translate_levels =
      (record {
        index = get_member Virtual.vpn0 (u32 addr);
        leaf = translate_leaf c entry_type access pc addr (physical addr 1);
      })
      ∷ []

  -- `CheckTrapSv32` is the walk that checks the leaf it finds.
  check_trap_sv32-walk :
      check_trap_sv32 c access pc addr
      ≡ walk entry_type next access pc addr some
          (root c (get_member Virtual.vpn1 (u32 addr)))
          (check_leaf c entry_type access pc addr misaligned_1)
          check_levels
  unfolding check_trap_sv32 walk check_levels root next misaligned_1
  check_trap_sv32-walk = refl

  -- `TranslateSv32` is the walk that translates by the leaf it finds.
  translate_sv32-walk :
      translate_sv32 c access addr pc
      ≡ walk entry_type next access pc addr fault
          (root c (get_member Virtual.vpn1 (u32 addr)))
          (translate_leaf c entry_type access pc addr (physical addr 0))
          translate_levels
  unfolding translate_sv32 walk translate_levels root next
  translate_sv32-walk = refl

  -- Where `CheckTrapSv32` finds no trap, `TranslateSv32` raises none: from the bus that
  -- the check left it updates the leaf that the tables have for `addr` and returns the address by it.
  pub check_trap_sv32-translate_sv32 :
      (b d : Bus D)
      → check_trap_sv32 c access pc addr b ≡ ok (none, d)
      → (l : Leaf) × (find_sv32 c addr b ≡ ok (l, d))
        × (translate_sv32 c access addr pc b
            ≡ (update_entry entry_type l.entry_address (is_store access)
                  >> pure (address (physical addr l.depth l.entry)))
                d)
  unfolding check_levels translate_levels find_sv32
  check_trap_sv32-translate_sv32 b d found =
      let (l, finds, done) =
        walk-Completes entry_type next access pc addr (is_store access) (physical addr) 0
          (root c (get_member Virtual.vpn1 (u32 addr))) _
          (check_leaf c entry_type access pc addr misaligned_1)
          (translate_leaf c entry_type access pc addr (physical addr 0)) check_levels
          translate_levels
          (check_leaf-Completes c entry_type access pc addr (physical addr) 0 misaligned_1)
          (refl, refl, check_last-Completes c entry_type access pc addr (physical addr) 1, tt) b d
          (ap (λ m. m b) (sym check_trap_sv32-walk) ∙ found) in
      (l, finds, ap (λ m. m b) translate_sv32-walk ∙ done)
