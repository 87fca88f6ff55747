-- ===== src/RvTypes.antt =====
-- include/rafi/common/RvTypes.h and include/rafi/emu/BasicTypes.h. The scoped enums are data types;
-- `static_cast` to and from their numbers are functions. `vaddr_t` and `paddr_t` are numbers below
-- `2 ^ 64`.
use rafi_emu.Common.{ℕ, Bool, true, false, ◌==◌, if◌then◌else◌}

abbrev pub int_reg_count : ℕ
int_reg_count = 32

abbrev pub fp_reg_count : ℕ
fp_reg_count = 32

pub data Xlen : Type 0 where
  xlen32 xlen64 xlen128 : Xlen

abbrev pub xlen_code : Xlen → ℕ
xlen_code xlen32 = 1
xlen_code xlen64 = 2
xlen_code xlen128 = 3

abbrev pub is_xlen32 : Xlen → Bool
is_xlen32 xlen32 = true
is_xlen32 xlen64 = false
is_xlen32 xlen128 = false

abbrev pub is_xlen64 : Xlen → Bool
is_xlen64 xlen32 = false
is_xlen64 xlen64 = true
is_xlen64 xlen128 = false

-- `static_cast<AddressTranslationMode>` of a number that no enumerator has is `other`.
pub data AddressTranslationMode : Type 0 where
  bare sv32 sv39 sv48 sv57 sv64 : AddressTranslationMode
  other : ℕ → AddressTranslationMode

unfoldable pub address_translation_mode : ℕ → AddressTranslationMode
address_translation_mode n =
    if n == 0
    then bare
    else if n == 1
    then sv32
    else if n == 8
    then sv39
    else if n == 9
    then sv48
    else if n == 10
    then sv57
    else if n == 11
    then sv64
    else other n

pub data MemoryAccessType : Type 0 where
  instruction load store : MemoryAccessType

pub data PrivilegeLevel : Type 0 where
  user supervisor reserved machine : PrivilegeLevel

abbrev pub privilege_code : PrivilegeLevel → ℕ
privilege_code user = 0
privilege_code supervisor = 1
privilege_code reserved = 2
privilege_code machine = 3

-- `static_cast<PrivilegeLevel>` of a field of two bits: every value has an enumerator.
unfoldable pub privilege_level_of : ℕ → PrivilegeLevel
privilege_level_of n =
    if n == 0 then user else if n == 1 then supervisor else if n == 2 then reserved else machine

pub data TrapType : Type 0 where
  interrupt exception return : TrapType

pub data InterruptType : Type 0 where
  user_software supervisor_software machine_software : InterruptType
  user_timer supervisor_timer machine_timer : InterruptType
  user_external supervisor_external machine_external : InterruptType

abbrev pub interrupt_code : InterruptType → ℕ
interrupt_code user_software = 0
interrupt_code supervisor_software = 1
interrupt_code machine_software = 3
interrupt_code user_timer = 4
interrupt_code supervisor_timer = 5
interrupt_code machine_timer = 7
interrupt_code user_external = 8
interrupt_code supervisor_external = 9
interrupt_code machine_external = 11

pub data ExceptionType : Type 0 where
  instruction_address_misaligned instruction_access_fault illegal_instruction : ExceptionType
  breakpoint load_address_misaligned load_access_fault : ExceptionType
  store_address_misaligned store_access_fault : ExceptionType
  environment_call_from_user environment_call_from_supervisor : ExceptionType
  environment_call_from_machine instruction_page_fault : ExceptionType
  load_page_fault store_page_fault : ExceptionType

abbrev pub exception_code : ExceptionType → ℕ
exception_code instruction_address_misaligned = 0
exception_code instruction_access_fault = 1
exception_code illegal_instruction = 2
exception_code breakpoint = 3
exception_code load_address_misaligned = 4
exception_code load_access_fault = 5
exception_code store_address_misaligned = 6
exception_code store_access_fault = 7
exception_code environment_call_from_user = 8
exception_code environment_call_from_supervisor = 9
exception_code environment_call_from_machine = 11
exception_code instruction_page_fault = 12
exception_code load_page_fault = 13
exception_code store_page_fault = 15
