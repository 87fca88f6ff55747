-- ===== src/Tests/Access.antt =====
-- The theorems on memory, the bus and the memory access unit, at concrete inputs.
use rafi_emu.Common.{
  ℕ, ◌+◌, ◌≤◌, ◌≡◌, refl, ◌⊎◌, arith, List, [], ◌∷◌, length, true, false, none, ok, inr,
}
use rafi_emu.RvTypes.{address_translation_mode, MemoryAccessType, load, store, sv39, bare}
use rafi_emu.BitField.{get_member, set_member}
use rafi_emu.RvPageTable.PhysicalSv39 as Physical
use rafi_emu.Memory.{Ram, ram}
use rafi_emu.Memory
use rafi_emu.Memory.Laws.{IsWhole, read-write}
use rafi_emu.Bus.{
  Bus, Info, any_contains, contains, last_address, convert_to_location, is_valid_address,
  is_memory_address, read_uint, write_uint,
}
use rafi_emu.Bus
use rafi_emu.Bus.Map.{IsEntry, Serves, is_valid_address-false, any_contains-Serves}
use rafi_emu.Bus.Access.{MapsRam, read_uint-write_uint}
use rafi_emu.Csr.{read_status}
use rafi_emu.MemoryAccessUnit.{
  effective_privilege_level, check_trap_for_entry, is_leaf_entry, check_trap_for_leaf_entry,
}
use rafi_emu.MemoryAccessUnit.PageOffset.{KeepsOffset}
use rafi_emu.MemoryAccessUnit.Sv39.{check_trap_sv39}
use rafi_emu.MemoryAccessUnit.Translate.{
  get_address_translation_mode, mode_at, mode_of_satp, bare_address, check_trap, check_trap_in,
  translate, add_event, store_uint, load_uint,
}
use rafi_emu.MemoryAccessUnit.Access.{Translates, check_trap-translate, load_uint-store_uint}
use rafi_emu.Tests.Inputs.{
  table_ram, ram_info, board, access_unit, paged_registers, machine_registers, latch,
}

table_ram-IsWhole : IsWhole table_ram
table_ram-IsWhole = record { full = refl; reachable = omega arith }

paged_mode : get_address_translation_mode access_unit.xlen paged_registers load ≡ ok sv39
unfolding get_address_translation_mode effective_privilege_level read_status get_member mode_at
    mode_of_satp address_translation_mode
paged_mode = refl

allowed : check_trap access_unit paged_registers load 0 0x1234 board ≡ ok (none, board)
unfolding check_trap check_trap_in check_trap_sv39 get_address_translation_mode
    effective_privilege_level read_status get_member mode_at mode_of_satp Physical.of_ppn set_member
    read_uint Bus.read Memory.read check_trap_for_entry is_leaf_entry check_trap_for_leaf_entry
    address_translation_mode is_memory_address any_contains contains convert_to_location
allowed = refl

check_trap-translate_example :
    (p : ℕ) × KeepsOffset 0x1234 p
    × Translates sv39 access_unit.xlen paged_registers load 0x1234
        (translate access_unit paged_registers load 0x1234 0)
        board
        board
        p
check_trap-translate_example =
    check_trap-translate access_unit paged_registers load sv39 0 0x1234 board board paged_mode
      (λ e. cc) allowed

machine_mode :
    (access : MemoryAccessType)
    → get_address_translation_mode access_unit.xlen machine_registers access ≡ ok bare
unfolding get_address_translation_mode effective_privilege_level read_status get_member mode_at
machine_mode access = refl

in_ram : is_memory_address board 0x8000_0004 4 ≡ true
unfolding is_memory_address any_contains contains
in_ram = refl

ram-Serves : Serves board.memory_list 0x8000_0004 4 ram_info
unfolding convert_to_location contains
ram-Serves = record { converts = refl; starts = omega arith; ends = omega arith }

board-MapsRam : MapsRam board ram_info table_ram
board-MapsRam = record {
  stored = refl;
  whole = table_ram-IsWhole;
  covered = omega arith;
  narrow = omega arith;
}

read_uint-write_uint_example :
    (c : Bus (List ℕ)) × (write_uint 4 board 0x8000_0004 0xdead_beef ≡ ok c)
    × (read_uint 4 c 0x8000_0004 ≡ ok (0xdead_beef, c))
read_uint-write_uint_example =
    read_uint-write_uint board ram_info table_ram 4 0x8000_0004 0xdead_beef (omega arith, tt)
      (omega arith) (omega arith) (omega arith) in_ram ram-Serves board-MapsRam

load_uint-store_uint_example :
    (d : Bus (List ℕ)) × (store_uint 4 access_unit machine_registers 0x8000_0004 0xdead_beef board
      ≡ ok (add_event access_unit store 4 0xdead_beef 0x8000_0004 0x8000_0004, d))
    × (load_uint 4
          (add_event access_unit store 4 0xdead_beef 0x8000_0004 0x8000_0004)
          machine_registers
          0x8000_0004
          d
        ≡ ok (
          (
            0xdead_beef,
            add_event
                (add_event access_unit store 4 0xdead_beef 0x8000_0004 0x8000_0004)
                load
                4
                0xdead_beef
                0x8000_0004
                0x8000_0004,
          ),
          d,
        ))
unfolding bare_address
load_uint-store_uint_example =
    load_uint-store_uint access_unit machine_registers board ram_info table_ram 4 0x8000_0004
      0xdead_beef (machine_mode store) (machine_mode load) (omega arith, tt) (omega arith)
      (omega arith) (omega arith) in_ram ram-Serves board-MapsRam

abbrev two_bytes : List ℕ
two_bytes = 7 ∷ 8 ∷ []

read-write_example :
    (n : Ram) × (Memory.write (ram table_ram) two_bytes 3 ≡ ok (ram n))
    × IsWhole n
    × (Memory.read (ram n) (length two_bytes) 3 ≡ ok two_bytes)
    × ((size at : ℕ)
        → (at + size ≤ 3) ⊎ (3 + length two_bytes ≤ at)
        → Memory.read (ram n) size at ≡ Memory.read (ram table_ram) size at)
read-write_example = read-write table_ram two_bytes 3 table_ram-IsWhole (omega arith)

any_contains-Serves_example :
    (i : Info) × IsEntry i board.memory_list × Serves board.memory_list 0x8000_0004 4 i
unfolding any_contains contains
any_contains-Serves_example =
    any_contains-Serves board.memory_list 0x8000_0004 4 (omega arith, tt) (tt, tt) (omega arith)
      (omega arith) refl

is_valid_address-false_example : is_valid_address board 0x8000_0004 4 ≡ false
is_valid_address-false_example =
    is_valid_address-false board 0x8000_0004 4 (omega arith, tt) (omega arith, tt)
      ((inr (omega arith), tt), tt) (omega arith) (omega arith)
