-- ===== src/Csr.antt =====
-- src/rafi-emu/cpu/Csr.h and Csr.cpp: the control and status registers, the program counter and the
-- privilege level. A method that changes the object returns the new one. `Read` and `Write` are the
-- register accesses by address, `Check` is `CheckTrap`. What `PrintRegisterUnimplementedMessage`
-- prints is left out.
pub mod Read
pub mod Write
pub mod Check
pub mod StatusView
pub mod Privilege
use rafi_emu.Common.{
  ℕ, ◌+◌, ◌/◌, ◌%◌, ◌^◌, Bool, true, false, ◌||◌, ◌==◌, if◌then◌else◌, bit_and, Outcome, ok, throws,
  ◌>>=◌,
}
use rafi_emu.BitField.{Member, get_member, set_member, set_with_mask}
use rafi_emu.RvTypes.{Xlen, xlen32, xlen64, xlen128, xlen_code, PrivilegeLevel, machine}
use rafi_emu.RvCsr.Misa
use rafi_emu.RvCsr.Status
use rafi_emu.Word.{u32, u64}

pub record Csr : Type 0 where
  pub xlen : Xlen
  pub isa : ℕ
  pub fp_csr : ℕ
  pub status : ℕ
  pub machine_trap_vector : ℕ
  pub supervisor_trap_vector : ℕ
  pub user_trap_vector : ℕ
  pub machine_exception_delegation : ℕ
  pub supervisor_exception_delegation : ℕ
  pub machine_interrupt_delegation : ℕ
  pub supervisor_interrupt_delegation : ℕ
  pub machine_counter_enable : ℕ
  pub supervisor_counter_enable : ℕ
  pub machine_scratch : ℕ
  pub supervisor_scratch : ℕ
  pub user_scratch : ℕ
  pub machine_exception_program_counter : ℕ
  pub supervisor_exception_program_counter : ℕ
  pub user_exception_program_counter : ℕ
  pub machine_cause : ℕ
  pub supervisor_cause : ℕ
  pub user_cause : ℕ
  pub machine_trap_value : ℕ
  pub supervisor_trap_value : ℕ
  pub user_trap_value : ℕ
  pub interrupt_enable : ℕ
  pub interrupt_pending : ℕ
  pub supervisor_address_translation_protection : ℕ
  pub cycle_counter : ℕ
  pub time_counter : ℕ
  pub instruction_retired_counter : ℕ
  pub program_counter : ℕ
  pub privilege_level : PrivilegeLevel

-- `m_ISA.SetMember<misa_t::I>(1)...SetMember<misa_t::S>(1)`.
base_isa : ℕ
base_isa =
    let i = set_member 64 Misa.i 0 1 in
    let m = set_member 64 Misa.m i 1 in
    let a = set_member 64 Misa.a m 1 in
    let f = set_member 64 Misa.f a 1 in
    let d = set_member 64 Misa.d f 1 in
    let c = set_member 64 Misa.c d 1 in let u = set_member 64 Misa.u c 1 in set_member 64 Misa.s u 1

isa_of : Xlen → Outcome ℕ
unfolding base_isa
isa_of xlen32 = ok (set_member 64 Misa.mxl_rv32 base_isa (xlen_code xlen32))
isa_of xlen64 = ok (set_member 64 Misa.mxl_rv64 base_isa (xlen_code xlen64))
isa_of xlen128 = throws

-- The constructor `Csr(XLEN xlen, vaddr_t initialPc)`.
unfoldable pub new : Xlen → ℕ → Outcome Csr
unfolding isa_of
new xlen initial_pc = do
  isa ← isa_of xlen
  ok (record {
    xlen = xlen;
    isa = isa;
    fp_csr = 0;
    status = 0;
    machine_trap_vector = 0;
    supervisor_trap_vector = 0;
    user_trap_vector = 0;
    machine_exception_delegation = 0;
    supervisor_exception_delegation = 0;
    machine_interrupt_delegation = 0;
    supervisor_interrupt_delegation = 0;
    machine_counter_enable = 0;
    supervisor_counter_enable = 0;
    machine_scratch = 0;
    supervisor_scratch = 0;
    user_scratch = 0;
    machine_exception_program_counter = 0;
    supervisor_exception_program_counter = 0;
    user_exception_program_counter = 0;
    machine_cause = 0;
    supervisor_cause = 0;
    user_cause = 0;
    machine_trap_value = 0;
    supervisor_trap_value = 0;
    user_trap_value = 0;
    interrupt_enable = 0;
    interrupt_pending = 0;
    supervisor_address_translation_protection = 0;
    cycle_counter = 0;
    time_counter = 0;
    instruction_retired_counter = 0;
    program_counter = initial_pc;
    privilege_level = machine;
  })

-- `ProcessCycle`: the three counters wrap at 64 bits.
unfoldable pub process_cycle : Csr → Csr
process_cycle c = record c {
  cycle_counter = u64 (c.cycle_counter + 1);
  time_counter = u64 (c.time_counter + 1);
  instruction_retired_counter = u64 (c.instruction_retired_counter + 1);
}

-- The summary bit SD of a status whose FS or XS field says dirty.
set_dirty : Xlen → ℕ → Outcome ℕ
set_dirty xlen32 s = ok (set_member 64 Status.sd_rv32 s 1)
set_dirty xlen64 s = ok (set_member 64 Status.sd_rv64 s 1)
set_dirty xlen128 s = throws

unfoldable pub read_status : Csr → Outcome ℕ
unfolding set_dirty
read_status c =
    if get_member Status.xs c.status == 3 || get_member Status.fs c.status == 3
    then set_dirty c.xlen c.status
    else ok c.status

-- `WriteStatus(value)`. The argument is an `xstatus_t`, whose constructor takes a `uint32_t`.
unfoldable pub write_status : Csr → ℕ → Csr
write_status c value = record c { status = set_with_mask 64 c.status (u32 value) Status.write_mask }

unfoldable pub write_interrupt_pending : Csr → ℕ → Csr
write_interrupt_pending c value = record c { interrupt_pending = value }

unfoldable pub write_fp_csr : Csr → ℕ → Csr
write_fp_csr c value = record c { fp_csr = value }

unfoldable pub write_time : Csr → ℕ → Csr
write_time c value = record c { time_counter = value }

unfoldable pub set_program_counter : Csr → ℕ → Csr
set_program_counter c value = record c { program_counter = value }

unfoldable pub set_privilege_level : Csr → PrivilegeLevel → Csr
set_privilege_level c level = record c { privilege_level = level }

-- `(addr >> 8) & 0b11`: the lowest privilege that may access the register.
abbrev pub address_mode : ℕ → ℕ
address_mode addr = bit_and (addr / 2 ^ 8) 3

unfoldable pub is_user_mode_register : ℕ → Bool
is_user_mode_register addr = address_mode addr == 0

unfoldable pub is_supervisor_mode_register : ℕ → Bool
is_supervisor_mode_register addr = address_mode addr == 1

unfoldable pub is_reserved_mode_register : ℕ → Bool
is_reserved_mode_register addr = address_mode addr == 2

unfoldable pub is_machine_mode_register : ℕ → Bool
is_machine_mode_register addr = address_mode addr == 3
