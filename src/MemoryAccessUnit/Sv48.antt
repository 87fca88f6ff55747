-- ===== src/MemoryAccessUnit/Sv48.antt =====
-- `CheckTrapSv48` and `TranslateSv48` of MemoryAccessUnit.cpp: the page walk, unrolled as there. `addressN` and
-- `entryN` are the address and the value of the page table entry of level N.
use rafi_emu.Common.{ℕ, ◌*◌, ◌==◌, not, ◌||◌, if◌then◌else◌, Option, none, some}
use rafi_emu.BitField.{get_member}
use rafi_emu.Word.{zero_extend}
use rafi_emu.RvTypes.{MemoryAccessType}
use rafi_emu.RvCsr.Satp
use rafi_emu.RvPageTable.EntrySv48 as Entry
use rafi_emu.RvPageTable.PhysicalSv48 as Physical
use rafi_emu.RvPageTable.VirtualSv48 as Virtual
use rafi_emu.Trap.{Trap}
use rafi_emu.Csr.{Csr}
use rafi_emu.Bus.{Io}
use rafi_emu.MemoryAccessUnit.{
  M, pure, ◌>>=◌, ◌>>◌, lift, return_if_trap, EntryType, read_entry, make_trap,
  check_trap_for_entry, is_leaf_entry, is_store, check_trap_for_leaf_entry, update_entry,
  Translation, fault, address,
}

abbrev pub entry_type : EntryType
entry_type = record {
  size = 8;
  valid = Entry.v;
  readable = Entry.r;
  writable = Entry.w;
  executable = Entry.e;
  user_page = Entry.u;
  accessed = Entry.a;
  dirty = Entry.d;
}

module _ {D : Type 0} ⦃io : Io D⦄ where
  unfoldable pub check_trap_sv48 : Csr → MemoryAccessType → ℕ → ℕ → M D (Option Trap)
  check_trap_sv48 c access pc addr = do
    let address1 =
        Physical.of_ppn (get_member Satp.ppn_rv64 c.supervisor_address_translation_protection)
          (8 * get_member Virtual.vpn3 addr)
    entry1 ← read_entry entry_type address1
    return_if_trap some (check_trap_for_entry entry_type entry1 access pc addr) (
        if is_leaf_entry entry_type entry1
        then (do
          trap ← lift (check_trap_for_leaf_entry c entry_type entry1 access pc addr)
          return_if_trap some trap (
              pure (
                if not (get_member Entry.ppn2 entry1 == 0)
                  || not (get_member Entry.ppn1 entry1 == 0)
                  || not (get_member Entry.ppn0 entry1 == 0)
                then some (make_trap access pc addr)
                else none)))
        else (do
          let address2 =
              Physical.of_parts (get_member Entry.ppn3 entry1) (get_member Entry.ppn2 entry1)
                (get_member Entry.ppn1 entry1) (get_member Entry.ppn0 entry1)
                (8 * get_member Virtual.vpn2 addr)
          entry2 ← read_entry entry_type address2
          return_if_trap some (check_trap_for_entry entry_type entry2 access pc addr) (
              if is_leaf_entry entry_type entry2
              then (do
                trap ← lift (check_trap_for_leaf_entry c entry_type entry2 access pc addr)
                return_if_trap some trap (
                    pure (
                      if not (get_member Entry.ppn1 entry2 == 0)
                        || not (get_member Entry.ppn0 entry2 == 0)
                      then some (make_trap access pc addr)
                      else none)))
              else (do
                let address3 =
                    Physical.of_parts (get_member Entry.ppn3 entry2) (get_member Entry.ppn2 entry2)
                      (get_member Entry.ppn1 entry2) (get_member Entry.ppn0 entry2)
                      (8 * get_member Virtual.vpn1 addr)
                entry3 ← read_entry entry_type address3
                return_if_trap some (check_trap_for_entry entry_type entry3 access pc addr) (
                    if is_leaf_entry entry_type entry3
                    then (do
                      trap ← lift (check_trap_for_leaf_entry c entry_type entry3 access pc addr)
                      return_if_trap some trap (
                          pure (
                            if not (get_member Entry.ppn0 entry3 == 0)
                            then some (make_trap access pc addr)
                            else none)))
                    else (do
                      let address4 =
                          Physical.of_parts (get_member Entry.ppn3 entry3)
                            (get_member Entry.ppn2 entry3) (get_member Entry.ppn1 entry3)
                            (get_member Entry.ppn0 entry3) (8 * get_member Virtual.vpn1 addr)
                      entry4 ← read_entry entry_type address4
                      return_if_trap some (check_trap_for_entry entry_type entry4 access pc addr) (
                          lift (check_trap_for_leaf_entry c entry_type entry4 access pc addr))))))))

  unfoldable pub translate_sv48 : Csr → MemoryAccessType → ℕ → ℕ → M D Translation
  translate_sv48 c access addr pc = do
    let address1 =
        Physical.of_ppn (get_member Satp.ppn_rv64 c.supervisor_address_translation_protection)
          (8 * get_member Virtual.vpn3 addr)
    entry1 ← read_entry entry_type address1
    return_if_trap fault (check_trap_for_entry entry_type entry1 access pc addr) (
        if is_leaf_entry entry_type entry1
        then (do
          trap ← lift (check_trap_for_leaf_entry c entry_type entry1 access pc addr)
          return_if_trap fault trap (
              update_entry entry_type address1 (is_store access)
              >> pure (
                  address (
                    zero_extend 48 (
                      Physical.of_parts (get_member Entry.ppn3 entry1)
                        (get_member Virtual.vpn2 addr) (get_member Virtual.vpn1 addr)
                        (get_member Virtual.vpn0 addr) (get_member Virtual.offset addr))))))
        else (do
          let address2 =
              Physical.of_parts (get_member Entry.ppn3 entry1) (get_member Entry.ppn2 entry1)
                (get_member Entry.ppn1 entry1) (get_member Entry.ppn0 entry1)
                (8 * get_member Virtual.vpn2 addr)
          entry2 ← read_entry entry_type address2
          return_if_trap fault (check_trap_for_entry entry_type entry2 access pc addr) (
              if is_leaf_entry entry_type entry2
              then (do
                trap ← lift (check_trap_for_leaf_entry c entry_type entry2 access pc addr)
                return_if_trap fault trap (
                    update_entry entry_type address2 (is_store access)
                    >> pure (
                        address (
                          zero_extend 48 (
                            Physical.of_parts (get_member Entry.ppn3 entry2)
                              (get_member Entry.ppn2 entry2) (get_member Virtual.vpn1 addr)
                              (get_member Virtual.vpn0 addr) (get_member Virtual.offset addr))))))
              else (do
                let address3 =
                    Physical.of_parts (get_member Entry.ppn3 entry2) (get_member Entry.ppn2 entry2)
                      (get_member Entry.ppn1 entry2) (get_member Entry.ppn0 entry2)
                      (8 * get_member Virtual.vpn1 addr)
                entry3 ← read_entry entry_type address3
                return_if_trap fault (check_trap_for_entry entry_type entry3 access pc addr) (
                    if is_leaf_entry entry_type entry3
                    then (do
                      trap ← lift (check_trap_for_leaf_entry c entry_type entry3 access pc addr)
                      return_if_trap fault trap (
                          update_entry entry_type address3 (is_store access)
                          >> pure (
                              address (
                                zero_extend 48 (
                                  Physical.of_parts (get_member Entry.ppn3 entry3)
                                    (get_member Entry.ppn2 entry3) (get_member Entry.ppn1 entry3)
                                    (get_member Virtual.vpn0 addr)
                                    (get_member Virtual.offset addr))))))
                    else (do
                      let address4 =
                          Physical.of_parts (get_member Entry.ppn3 entry3)
                            (get_member Entry.ppn2 entry3) (get_member Entry.ppn1 entry3)
                            (get_member Entry.ppn0 entry3) (8 * get_member Virtual.vpn0 addr)
                      entry4 ← read_entry entry_type address4
                      return_if_trap fault (check_trap_for_entry entry_type entry4 access pc addr)
                          (do
                            trap ←
                                lift (check_trap_for_leaf_entry c entry_type entry4 access pc addr)
                            return_if_trap fault trap (
                                update_entry entry_type address4 (is_store access)
                                >> pure (
                                    address (
                                      zero_extend 48 (
                                        Physical.of_parts (get_member Entry.ppn3 entry4)
                                          (get_member Entry.ppn2 entry4)
                                          (get_member Entry.ppn1 entry4)
                                          (get_member Entry.ppn0 entry4)
                                          (get_member Virtual.offset addr))))))))))))
