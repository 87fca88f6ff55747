-- ===== src/TrapProcessor.antt =====
-- src/rafi-emu/cpu/TrapProcessor.h and TrapProcessor.cpp: entering and leaving a trap handler. The
-- object that `m_pCsr` points to is passed in and returned.
pub mod Status
pub mod Enter
pub mod Return
pub mod Delegate
pub mod Interrupt
use rafi_emu.Common.{
  ℕ, ◌+◌, ◌*◌, ◌/◌, ◌%◌, ◌^◌, Bool, true, false, ◌==◌, ◌&&◌, is_set, if◌then◌else◌, bit_and, bit_or,
  Outcome, ok, throws, ◌>>=◌,
}
use rafi_emu.BitField.{get_member, get_with_mask, set_member, mask}
use rafi_emu.Word.{u32, u64}
use rafi_emu.RvTypes.{
  Xlen, xlen32, xlen64, xlen128, PrivilegeLevel, user, supervisor, reserved, machine,
  privilege_code, privilege_level_of, TrapType, interrupt, exception, return, InterruptType,
  interrupt_code, exception_code,
}
use rafi_emu.RvCsr.Addr
use rafi_emu.RvCsr.Status as StatusField
use rafi_emu.RvCsr.Tvec
use rafi_emu.Trap.{Trap}
use rafi_emu.Csr.{Csr, set_program_counter, set_privilege_level}
use rafi_emu.Csr.Read.{read_u64}
use rafi_emu.Csr.Write.{write_u64}

-- `struct TrapEvent` of include/rafi/emu/Event.h.
pub record TrapEvent : Type 0 where
  pub trap_type : TrapType
  pub trap_cause : ℕ
  pub from : PrivilegeLevel
  pub to : PrivilegeLevel
  pub trap_value : ℕ

pub record TrapProcessor : Type 0 where
  pub xlen : Xlen
  pub trap_event : TrapEvent
  pub trap_event_valid : Bool

-- What a method leaves behind: the object, and the registers that it wrote.
pub record Done : Type 0 where
  pub processor : TrapProcessor
  pub csr : Csr

-- `ClearEvent`: `memset` to zero bytes.
unfoldable pub clear_event : TrapProcessor → TrapProcessor
clear_event p = record p {
  trap_event = record {
    trap_type = interrupt;
    trap_cause = 0;
    from = user;
    to = user;
    trap_value = 0;
  };
  trap_event_valid = false;
}

-- The cause register: the code, with the top bit of the word set for an interrupt.
unfoldable pub cause_word : Xlen → Bool → ℕ → Outcome ℕ
cause_word xlen32 is_interrupt code = ok (bit_or (if is_interrupt then 2 ^ 31 else 0) code)
cause_word xlen64 is_interrupt code = ok (bit_or (if is_interrupt then 2 ^ 63 else 0) code)
cause_word xlen128 is_interrupt code = throws

-- The three `SetMember` calls of the Machine case on `status`.
unfoldable pub machine_entry_status : ℕ → ℕ → ℕ
machine_entry_status s previous =
    let s1 = set_member 64 StatusField.mpie s (get_member StatusField.mie s) in
    let s2 = set_member 64 StatusField.mie s1 0 in set_member 64 StatusField.mpp s2 previous

unfoldable pub supervisor_entry_status : ℕ → ℕ → ℕ
supervisor_entry_status s previous =
    let s1 = set_member 64 StatusField.spie s (get_member StatusField.sie s) in
    let s2 = set_member 64 StatusField.sie s1 0 in set_member 64 StatusField.spp s2 previous

unfoldable pub user_entry_status : ℕ → ℕ
user_entry_status s =
    let s1 = set_member 64 StatusField.upie s (get_member StatusField.uie s) in
    set_member 64 StatusField.uie s1 0

-- The `switch (nextPrivilegeLevel)`: saves the state of the trap and reads the trap vector.
save_trap : PrivilegeLevel → Csr → ℕ → ℕ → ℕ → ℕ → Outcome (Csr × ℕ)
save_trap machine c previous cause pc trap_value = do
  s ← read_u64 c Addr.mstatus
  c ← write_u64 c Addr.mstatus (machine_entry_status (u32 s) previous)
  c ← write_u64 c Addr.mcause cause
  c ← write_u64 c Addr.mepc pc
  c ← write_u64 c Addr.mtval trap_value
  v ← read_u64 c Addr.mtvec
  ok (c, v)
save_trap supervisor c previous cause pc trap_value = do
  s ← read_u64 c Addr.sstatus
  c ← write_u64 c Addr.sstatus (supervisor_entry_status (u32 s) previous)
  c ← write_u64 c Addr.scause cause
  c ← write_u64 c Addr.sepc pc
  c ← write_u64 c Addr.stval trap_value
  v ← read_u64 c Addr.stvec
  ok (c, v)
save_trap user c previous cause pc trap_value = do
  s ← read_u64 c Addr.ustatus
  c ← write_u64 c Addr.ustatus (user_entry_status (u32 s))
  c ← write_u64 c Addr.ucause cause
  c ← write_u64 c Addr.uepc pc
  c ← write_u64 c Addr.utval trap_value
  v ← read_u64 c Addr.utvec
  ok (c, v)
save_trap reserved c previous cause pc trap_value = throws

unfoldable pub vector_base : Xlen → ℕ → Outcome ℕ
vector_base xlen32 v = ok (get_with_mask v (mask Tvec.base_rv32))
vector_base xlen64 v = ok (get_with_mask v (mask Tvec.base_rv64))
vector_base xlen128 v = throws

-- The address of the handler: vectored mode adds four bytes for each interrupt code.
unfoldable pub handler_address : Bool → ℕ → ℕ → ℕ → ℕ
handler_address is_interrupt code base vector =
    if is_interrupt && (get_member Tvec.mode vector == 1) then u64 (base + u32 (code * 4)) else base

-- `ProcessTrapEnter`. `from` is read after the privilege level was changed.
unfoldable pub process_trap_enter :
    TrapProcessor → Csr → Bool → ℕ → ℕ → ℕ → PrivilegeLevel → Outcome Done
unfolding save_trap cause_word vector_base
process_trap_enter p c is_interrupt code trap_value pc next = do
  let previous = privilege_code c.privilege_level
  let c = set_privilege_level c next
  cause ← cause_word p.xlen is_interrupt code
  (c, vector) ← save_trap next c previous cause pc trap_value
  base ← vector_base p.xlen vector
  let c = set_program_counter c (handler_address is_interrupt code base vector)
  ok (record {
    processor = record p {
      trap_event = record {
        trap_type = if is_interrupt then interrupt else exception;
        trap_cause = code;
        from = c.privilege_level;
        to = next;
        trap_value = trap_value;
      };
      trap_event_valid = true;
    };
    csr = c;
  })

-- The level that the two delegation registers give to a cause.
unfoldable pub delegated_level : ℕ → ℕ → ℕ → PrivilegeLevel
delegated_level machine_deleg supervisor_deleg cause =
    if is_set (bit_and machine_deleg (2 ^ cause))
    then (if is_set (bit_and supervisor_deleg (2 ^ cause)) then user else supervisor)
    else machine

unfoldable pub process_exception : TrapProcessor → Csr → Trap → Outcome Done
unfolding process_trap_enter
process_exception p c trap = do
  let cause = exception_code trap.type
  medeleg ← read_u64 c Addr.medeleg
  sedeleg ← read_u64 c Addr.sedeleg
  let next = delegated_level medeleg sedeleg cause
  process_trap_enter p c false cause trap.trap_value trap.pc next

unfoldable pub process_interrupt : TrapProcessor → Csr → InterruptType → ℕ → Outcome Done
unfolding process_trap_enter
process_interrupt p c type pc = do
  let cause = interrupt_code type
  mideleg ← read_u64 c Addr.mideleg
  sideleg ← read_u64 c Addr.sideleg
  let next = delegated_level mideleg sideleg cause
  process_trap_enter p c true cause 0 pc next

unfoldable pub machine_return_status : ℕ → ℕ
machine_return_status s =
    let s1 = set_member 64 StatusField.mpp s 0 in
    set_member 64 StatusField.mie s1 (get_member StatusField.mpie s)

unfoldable pub supervisor_return_status : ℕ → ℕ
supervisor_return_status s =
    let s1 = set_member 64 StatusField.spp s 0 in
    set_member 64 StatusField.sie s1 (get_member StatusField.spie s)

-- The `switch (level)`: the registers after it, and `previousLevel`.
restore_trap : PrivilegeLevel → Csr → Outcome (Csr × ℕ)
restore_trap machine c = do
  s ← read_u64 c Addr.mstatus
  pc ← read_u64 c Addr.mepc
  let previous_level = get_member StatusField.mpp (u32 s)
  c ← write_u64 c Addr.mstatus (machine_return_status (u32 s))
  ok (set_program_counter c pc, previous_level)
restore_trap supervisor c = do
  s ← read_u64 c Addr.sstatus
  pc ← read_u64 c Addr.sepc
  let previous_level = get_member StatusField.spp (u32 s)
  c ← write_u64 c Addr.sstatus (supervisor_return_status (u32 s))
  ok (set_program_counter c pc, previous_level)
restore_trap user c = throws
restore_trap reserved c = throws

-- `ProcessTrapReturn`. The cause and the value of the event keep what they were.
unfoldable pub process_trap_return : TrapProcessor → Csr → PrivilegeLevel → Outcome Done
unfolding restore_trap
process_trap_return p c level = do
  (c, previous_level) ← restore_trap level c
  let next = privilege_level_of previous_level
  ok (record {
    processor = record p {
      trap_event = record {
        trap_type = return;
        trap_cause = p.trap_event.trap_cause;
        from = c.privilege_level;
        to = next;
        trap_value = p.trap_event.trap_value;
      };
      trap_event_valid = true;
    };
    csr = set_privilege_level c next;
  })
