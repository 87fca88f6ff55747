-- ===== src/Tests/Inputs.antt =====
-- Concrete registers, memories and maps.
use rafi_emu.Common.{ℕ, true, false, List, [], ◌∷◌, ok}
use rafi_emu.RvTypes.{xlen64, PrivilegeLevel, user, machine, interrupt, load_page_fault}
use rafi_emu.Memory.{Ram, ram}
use rafi_emu.Bus.{Io, Info, Bus}
use rafi_emu.Trap.{Trap}
use rafi_emu.Csr.{Csr}
use rafi_emu.TrapProcessor.{TrapProcessor}
use rafi_emu.InterruptController.{Sources}
use rafi_emu.MemoryAccessUnit.Translate.{MemoryAccessUnit}

-- Registers that are 0 but for the ones that the tests read.
abbrev pub registers : PrivilegeLevel → ℕ → ℕ → ℕ → Csr
registers level status medeleg satp = record {
  xlen = xlen64;
  isa = 0;
  fp_csr = 0;
  status = status;
  machine_trap_vector = 0x8000_0101;
  supervisor_trap_vector = 0x8000_0200;
  user_trap_vector = 0;
  machine_exception_delegation = medeleg;
  supervisor_exception_delegation = 0;
  machine_interrupt_delegation = 0;
  supervisor_interrupt_delegation = 0;
  machine_counter_enable = 0;
  supervisor_counter_enable = 0;
  machine_scratch = 0;
  supervisor_scratch = 0;
  user_scratch = 0;
  machine_exception_program_counter = 0x8000_0040;
  supervisor_exception_program_counter = 0;
  user_exception_program_counter = 0;
  machine_cause = 0;
  supervisor_cause = 0;
  user_cause = 0;
  machine_trap_value = 0;
  supervisor_trap_value = 0;
  user_trap_value = 0;
  interrupt_enable = 0x888;
  interrupt_pending = 0x80;
  supervisor_address_translation_protection = satp;
  cycle_counter = 0;
  time_counter = 0;
  instruction_retired_counter = 0;
  program_counter = 0x8000_0000;
  privilege_level = level;
}

-- User mode with MIE set.
abbrev pub user_registers : Csr
user_registers = registers user 8 0 0

abbrev pub machine_registers : Csr
machine_registers = registers machine 8 0 0

-- User mode with load page faults delegated to supervisor mode.
abbrev pub delegating_registers : Csr
delegating_registers = registers user 8 0x2000 0

-- User mode under Sv39, with the root table at 0x80000000.
abbrev pub paged_registers : Csr
paged_registers = registers user 0 0 0x8000_0000_0008_0000

abbrev pub processor : TrapProcessor
processor = record {
  xlen = xlen64;
  trap_event = record {
    trap_type = interrupt;
    trap_cause = 0;
    from = user;
    to = user;
    trap_value = 0;
  };
  trap_event_valid = false;
}

abbrev pub page_fault : Trap
page_fault = record { type = load_page_fault; pc = 0x1000; trap_value = 0x5000 }

abbrev pub timer_only : Sources
timer_only = record { timer = true; external = false }

abbrev pub external_only : Sources
external_only = record { timer = false; external = true }

-- A device that keeps the bytes last written to it.
instance abbrev pub latch : Io (List ℕ)
latch = record { read = λ d size offset. ok (d, d); write = λ d bytes offset. ok bytes }

-- One page table entry, of a page of 1 GiB that a user may read, write and execute.
abbrev pub table_ram : Ram
table_ram = record { capacity = 8; body = 0x1f ∷ 0 ∷ 0 ∷ 0x20 ∷ 0 ∷ 0 ∷ 0 ∷ 0 ∷ [] }

abbrev pub ram_info : Info
ram_info = record { target = 0; address = 0x8000_0000; size = 8 }

abbrev pub latch_info : Info
latch_info = record { target = 0; address = 0x1000; size = 16 }

abbrev pub board : Bus (List ℕ)
board = record {
  memories = ram table_ram ∷ [];
  devices = [] ∷ [];
  memory_list = ram_info ∷ [];
  io_list = latch_info ∷ [];
}

abbrev pub access_unit : MemoryAccessUnit
access_unit = record { xlen = xlen64; events = [] }
