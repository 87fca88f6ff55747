-- ===== src/MemoryAccessUnit/WalkSv48.antt =====
-- `CheckTrapSv48` and `TranslateSv48` of src/rafi-emu/cpu/MemoryAccessUnit.cpp as instances of the walk, and how a
-- translation follows a check.
use rafi_emu.Common.{
  ℕ, ◌*◌, Bool, ◌==◌, not, ◌||◌, Option, none, some, ok, List, [], ◌∷◌, ◌≡◌, refl, sym, ap, ◌∙◌,
}
use rafi_emu.BitField.{get_member}
use rafi_emu.Word.{zero_extend}
use rafi_emu.RvTypes.{MemoryAccessType}
use rafi_emu.RvCsr.Satp
use rafi_emu.RvPageTable.EntrySv48 as Entry
use rafi_emu.RvPageTable.PhysicalSv48 as Physical
use rafi_emu.RvPageTable.VirtualSv48 as Virtual
use rafi_emu.Trap.{Trap}
use rafi_emu.Csr.{Csr}
use rafi_emu.Bus.{Bus, Io}
use rafi_emu.MemoryAccessUnit.{M, ◌>>◌, pure, is_store, update_entry, Translation, fault, address}
use rafi_emu.MemoryAccessUnit.Sv48.{entry_type, check_trap_sv48, translate_sv48}
use rafi_emu.MemoryAccessUnit.Walk.{
  Leaf, find_leaf, part, Level, walk, walk-Completes, check_leaf, check_last, translate_leaf,
  check_leaf-Completes, check_last-Completes,
}
use rafi_emu.MemoryAccessUnit.PageOffset.{KeepsOffset, offset_kept_sv48}

-- The address of an entry of the root table, and of the table that an entry points to.
root : Csr → ℕ → ℕ
root c index =
    Physical.of_ppn (get_member Satp.ppn_rv64 c.supervisor_address_translation_protection)
      (8 * index)

next : ℕ → ℕ → ℕ
next entry index =
    Physical.of_parts (get_member Entry.ppn3 entry) (get_member Entry.ppn2 entry)
      (get_member Entry.ppn1 entry) (get_member Entry.ppn0 entry) (8 * index)

-- A leaf of level 1 is not aligned.
misaligned_1 : ℕ → Bool
misaligned_1 entry =
    not (get_member Entry.ppn2 entry == 0)
    || not (get_member Entry.ppn1 entry == 0)
    || not (get_member Entry.ppn0 entry == 0)

-- A leaf of level 2 is not aligned.
misaligned_2 : ℕ → Bool
misaligned_2 entry =
    not (get_member Entry.ppn1 entry == 0) || not (get_member Entry.ppn0 entry == 0)

-- A leaf of level 3 is not aligned.
misaligned_3 : ℕ → Bool
misaligned_3 entry = not (get_member Entry.ppn0 entry == 0)

-- The physical address by a leaf below `depth` tables: the parts of the page number below the leaf
-- come from `addr`. The code cuts it to 48 bits.
abbrev pub physical : ℕ → ℕ → ℕ → ℕ
physical addr depth entry = zero_extend 48 (
    Physical.of_parts (get_member Entry.ppn3 entry)
      (part 1 depth (get_member Entry.ppn2 entry) (get_member Virtual.vpn2 addr))
      (part 2 depth (get_member Entry.ppn1 entry) (get_member Virtual.vpn1 addr))
      (part 3 depth (get_member Entry.ppn0 entry) (get_member Virtual.vpn0 addr))
      (get_member Virtual.offset addr))

pub physical-offset : (addr depth entry : ℕ) → KeepsOffset addr (physical addr depth entry)
unfolding Physical.of_parts
physical-offset addr depth entry = offset_kept_sv48 _ addr

-- The leaf that the page tables have for `addr`.
pub find_sv48 : {D : Type 0} ⦃io : Io D⦄ → Csr → ℕ → M D Leaf
find_sv48 c addr = find_leaf entry_type next 0 (root c (get_member Virtual.vpn3 addr)) (
    get_member Virtual.vpn2 addr ∷ get_member Virtual.vpn1 addr ∷ get_member Virtual.vpn0 addr ∷ [])

module _ {D : Type 0} ⦃io : Io D⦄ (c : Csr) (access : MemoryAccessType) (pc addr : ℕ) where
  check_levels : List (Level D (Option Trap))
  check_levels =
      (record {
        index = get_member Virtual.vpn2 addr;
        leaf = check_leaf c entry_type access pc addr misaligned_2;
      })
      ∷ (record {
        index = get_member Virtual.vpn1 addr;
        leaf = check_leaf c entry_type access pc addr misaligned_3;
      })
      ∷ (record {
        index = get_member Virtual.vpn1 addr;
        leaf = check_last c entry_type access pc addr;
      })
      ∷ []

  translate_levels : List (Level D Translation)
  translate_levels =
      (record {
        index = get_member Virtual.vpn2 addr;
        leaf = translate_leaf c entry_type access pc addr (physical addr 1);
      })
      ∷ (record {
        index = get_member Virtual.vpn1 addr;
        leaf = translate_leaf c entry_type access pc addr (physical addr 2);
      })
      ∷ (record {
        index = get_member Virtual.vpn0 addr;
        leaf = translate_leaf c entry_type access pc addr (physical addr 3);
      })
      ∷ []

  -- `CheckTrapSv48` is the walk that checks the leaf it finds.
  check_trap_sv48-walk :
      check_trap_sv48 c access pc addr
      ≡ walk entry_type next access pc addr some
          (root c (get_member Virtual.vpn3 addr))
          (check_leaf c entry_type access pc addr misaligned_1)
          check_levels
  unfolding check_trap_sv48 walk check_levels root next misaligned_1 misaligned_2 misaligned_3
  check_trap_sv48-walk = refl

  -- `TranslateSv48` is the walk that translates by the leaf it finds.
  translate_sv48-walk :
      translate_sv48 c access addr pc
      ≡ walk entry_type next access pc addr fault
          (root c (get_member Virtual.vpn3 addr))
          (translate_leaf c entry_type access pc addr (physical addr 0))
          translate_levels
  unfolding translate_sv48 walk translate_levels root next
  translate_sv48-walk = refl

  -- Where `CheckTrapSv48` finds no trap, for an address with equal fields VPN1 and VPN0, `TranslateSv48` raises none: from the bus that
  -- the check left it updates the leaf that the tables have for `addr` and returns the address by it.
  pub check_trap_sv48-translate_sv48 :
      (b d : Bus D)
      → get_member Virtual.vpn1 addr ≡ get_member Virtual.vpn0 addr
      → check_trap_sv48 c access pc addr b ≡ ok (none, d)
      → (l : Leaf) × (find_sv48 c addr b ≡ ok (l, d))
        × (translate_sv48 c access addr pc b
            ≡ (update_entry entry_type l.entry_address (is_store access)
                  >> pure (address (physical addr l.depth l.entry)))
                d)
  unfolding check_levels translate_levels find_sv48
  check_trap_sv48-translate_sv48 b d same found =
      let (l, finds, done) =
        walk-Completes entry_type next access pc addr (is_store access) (physical addr) 0
          (root c (get_member Virtual.vpn3 addr)) _
          (check_leaf c entry_type access pc addr misaligned_1)
          (translate_leaf c entry_type access pc addr (physical addr 0)) check_levels
          translate_levels
          (check_leaf-Completes c entry_type access pc addr (physical addr) 0 misaligned_1)
          (
            refl,
            refl,
            check_leaf-Completes c entry_type access pc addr (physical addr) 1 misaligned_2,
            (
              refl,
              refl,
              check_leaf-Completes c entry_type access pc addr (physical addr) 2 misaligned_3,
              (same, refl, check_last-Completes c entry_type access pc addr (physical addr) 3, tt),
            ),
          )
          b d (ap (λ m. m b) (sym check_trap_sv48-walk) ∙ found) in
      (l, finds, ap (λ m. m b) translate_sv48-walk ∙ done)
