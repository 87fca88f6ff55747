-- ===== src/Trap.antt =====
-- src/rafi-emu/cpu/Trap.h and Trap.cpp: a synchronous exception as a value.
use rafi_emu.Common.{ℕ}
use rafi_emu.RvTypes.{
  ExceptionType, instruction_address_misaligned, instruction_access_fault, illegal_instruction,
  breakpoint, load_address_misaligned, load_access_fault, store_access_fault,
  environment_call_from_user, environment_call_from_supervisor, environment_call_from_machine,
  instruction_page_fault, load_page_fault, store_page_fault,
}

pub record Trap : Type 0 where
  pub type : ExceptionType
  pub pc : ℕ
  pub trap_value : ℕ

abbrev trap : ExceptionType → ℕ → ℕ → Trap
trap type pc trap_value = record { type = type; pc = pc; trap_value = trap_value }

abbrev pub make_instruction_address_misaligned_exception : ℕ → Trap
make_instruction_address_misaligned_exception pc = trap instruction_address_misaligned pc pc

abbrev pub make_instruction_access_fault_exception : ℕ → Trap
make_instruction_access_fault_exception pc = trap instruction_access_fault pc pc

abbrev pub make_illegal_instruction_exception : ℕ → ℕ → Trap
make_illegal_instruction_exception pc insn = trap illegal_instruction pc insn

abbrev pub make_breakpoint_exception : ℕ → Trap
make_breakpoint_exception pc = trap breakpoint pc pc

abbrev pub make_load_address_misaligned_exception : ℕ → ℕ → Trap
make_load_address_misaligned_exception pc address = trap load_address_misaligned pc address

abbrev pub make_load_access_fault_exception : ℕ → ℕ → Trap
make_load_access_fault_exception pc address = trap load_access_fault pc address

abbrev pub make_store_access_fault_exception : ℕ → ℕ → Trap
make_store_access_fault_exception pc address = trap store_access_fault pc address

abbrev pub make_environment_call_from_user_exception : ℕ → Trap
make_environment_call_from_user_exception pc = trap environment_call_from_user pc pc

abbrev pub make_environment_call_from_supervisor_exception : ℕ → Trap
make_environment_call_from_supervisor_exception pc = trap environment_call_from_supervisor pc pc

abbrev pub make_environment_call_from_machine_exception : ℕ → Trap
make_environment_call_from_machine_exception pc = trap environment_call_from_machine pc pc

abbrev pub make_instruction_page_fault_exception : ℕ → ℕ → Trap
make_instruction_page_fault_exception pc address = trap instruction_page_fault pc address

abbrev pub make_load_page_fault_exception : ℕ → ℕ → Trap
make_load_page_fault_exception pc address = trap load_page_fault pc address

abbrev pub make_store_page_fault_exception : ℕ → ℕ → Trap
make_store_page_fault_exception pc address = trap store_page_fault pc address
