-- ===== src/MemoryAccessUnit/Sv32.antt =====
-- `CheckTrapSv32` and `TranslateSv32` of MemoryAccessUnit.cpp: the page walk, unrolled as there. `addressN` and
-- `entryN` are the address and the value of the page table entry of level N.
use rafi_emu.Common.{ℕ, ◌*◌, ◌==◌, not, if◌then◌else◌, Option, none, some}
use rafi_emu.BitField.{get_member}
use rafi_emu.Word.{u32, zero_extend}
use rafi_emu.RvTypes.{MemoryAccessType}
use rafi_emu.RvCsr.Satp
use rafi_emu.RvPageTable.EntrySv32 as Entry
use rafi_emu.RvPageTable.PhysicalSv32 as Physical
use rafi_emu.RvPageTable.VirtualSv32 as Virtual
use rafi_emu.Trap.{Trap}
use rafi_emu.Csr.{Csr}
use rafi_emu.Bus.{Io}
use rafi_emu.MemoryAccessUnit.{
  M, pure, ◌>>=◌, ◌>>◌, lift, return_if_trap, EntryType, read_entry, make_trap,
  check_trap_for_entry, is_leaf_entry, is_store, check_trap_for_leaf_entry, update_entry,
  Translation, fault, address,
}

abbrev pub entry_type : EntryType
entry_type = record {
  size = 4;
  valid = Entry.v;
  readable = Entry.r;
  writable = Entry.w;
  executable = Entry.e;
  user_page = Entry.u;
  accessed = Entry.a;
  dirty = Entry.d;
}

module _ {D : Type 0} ⦃io : Io D⦄ where
  unfoldable pub check_trap_sv32 : Csr → MemoryAccessType → ℕ → ℕ → M D (Option Trap)
  check_trap_sv32 c access pc addr = do
    let address1 =
        Physical.of_ppn (get_member Satp.ppn_rv32 c.supervisor_address_translation_protection)
          (4 * get_member Virtual.vpn1 (u32 addr))
    entry1 ← read_entry entry_type address1
    return_if_trap some (check_trap_for_entry entry_type entry1 access pc addr) (
        if is_leaf_entry entry_type entry1
        then (do
          trap ← lift (check_trap_for_leaf_entry c entry_type entry1 access pc addr)
          return_if_trap some trap (
              pure (
                if not (get_member Entry.ppn0 entry1 == 0)
                then some (make_trap access pc addr)
                else none)))
        else (do
          let address2 =
              Physical.of_parts (get_member Entry.ppn1 entry1) (get_member Entry.ppn0 entry1)
                (4 * get_member Virtual.vpn0 (u32 addr))
          entry2 ← read_entry entry_type address2
          return_if_trap some (check_trap_for_entry entry_type entry2 access pc addr)
              (lift (check_trap_for_leaf_entry c entry_type entry2 access pc addr))))

  unfoldable pub translate_sv32 : Csr → MemoryAccessType → ℕ → ℕ → M D Translation
  translate_sv32 c access addr pc = do
    let address1 =
        Physical.of_ppn (get_member Satp.ppn_rv32 c.supervisor_address_translation_protection)
          (4 * get_member Virtual.vpn1 (u32 addr))
    entry1 ← read_entry entry_type address1
    return_if_trap fault (check_trap_for_entry entry_type entry1 access pc addr) (
        if is_leaf_entry entry_type entry1
        then (do
          trap ← lift (check_trap_for_leaf_entry c entry_type entry1 access pc addr)
          return_if_trap fault trap (
              update_entry entry_type address1 (is_store access)
              >> pure (
                  address (
                    zero_extend 32 (
                      Physical.of_parts (get_member Entry.ppn1 entry1)
                        (get_member Virtual.vpn0 (u32 addr))
                        (get_member Virtual.offset (u32 addr)))))))
        else (do
          let address2 =
              Physical.of_parts (get_member Entry.ppn1 entry1) (get_member Entry.ppn0 entry1)
                (4 * get_member Virtual.vpn0 (u32 addr))
          entry2 ← read_entry entry_type address2
          return_if_trap fault (check_trap_for_entry entry_type entry2 access pc addr) (do
            trap ← lift (check_trap_for_leaf_entry c entry_type entry2 access pc addr)
            return_if_trap fault trap (
                update_entry entry_type address2 (is_store access)
                >> pure (
                    address (
                      zero_extend 32 (
                        Physical.of_parts (get_member Entry.ppn1 entry2)
                          (get_member Entry.ppn0 entry2)
                          (get_member Virtual.offset (u32 addr)))))))))
