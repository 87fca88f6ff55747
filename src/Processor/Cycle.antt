-- ===== src/Processor/Cycle.antt =====
-- src/rafi-emu/cpu/Processor.h and Processor.cpp: the state of a processor and `ProcessCycle`.
use rafi_emu.Common.{ℕ, ◌+◌, ◌-◌, ◌^◌, Bool, true, false, if◌then◌else◌, Outcome, ok, ◌>>=◌}
use rafi_emu.Word.{u32}
use rafi_emu.RvTypes.{Xlen, PrivilegeLevel}
use rafi_emu.Bus.{Io}
use rafi_emu.Csr as Csr
use rafi_emu.RegFile.Integer.{write_int32}
use rafi_emu.TrapProcessor.{process_interrupt, process_exception}
use rafi_emu.TrapProcessor as TrapProcessor
use rafi_emu.InterruptController.{Sources, InterruptController, update}
use rafi_emu.MemoryAccessUnit.Translate as MemoryAccessUnit
use rafi_emu.Executor.Machine.{Machine, Wide}
use rafi_emu.Executor.Process.{Floating}
use rafi_emu.Processor.Step.{Fetched, fetch_trap, fetched, fetch, process_insn, raise}

pub record OpEvent : Type 0 where
  pub op_id : ℕ
  pub insn : ℕ
  pub privilege_level : PrivilegeLevel
  pub virtual_pc : ℕ
  pub physical_pc : ℕ

pub record Processor (D : Type 0) : Type 0 where
  pub xlen : Xlen
  pub machine : Machine D
  pub interrupt_controller : InterruptController
  pub op_count : ℕ
  pub op_event_valid : Bool
  pub op_event : OpEvent

abbrev pub invalid_value : ℕ
invalid_value = 2 ^ 64 - 1

module _ {D : Type 0} where
  unfoldable pub clear_op_event : Processor D → Processor D
  clear_op_event p = record p { op_event_valid = false }

  -- `SetOpEvent(virtualPc, privilegeLevel)`: the instruction is not known, and is recorded as the
  -- low 32 bits of `InvalidValue`.
  unfoldable pub set_op_event : Processor D → ℕ → PrivilegeLevel → Processor D
  set_op_event p virtual_pc level = record p {
    op_event = record {
      op_id = p.op_count;
      insn = u32 invalid_value;
      privilege_level = level;
      virtual_pc = virtual_pc;
      physical_pc = invalid_value;
    };
    op_event_valid = true;
    op_count = u32 (p.op_count + 1);
  }

  unfoldable pub with_machine : Processor D → Machine D → Processor D
  with_machine p m = record p { machine = m }

  -- `SetIntReg(regId, regValue)`
  unfoldable pub set_int_reg : Processor D → ℕ → ℕ → Outcome (Processor D)
  set_int_reg p reg_id value = do
    f ← write_int32 p.machine.int_reg_file reg_id value
    ok (with_machine p (record p.machine { int_reg_file = f }))

  unfoldable pub write_interrupt_pending : Processor D → ℕ → Processor D
  write_interrupt_pending p value =
      with_machine p (record p.machine { csr = Csr.write_interrupt_pending p.machine.csr value })

  unfoldable pub write_time : Processor D → ℕ → Processor D
  write_time p value =
      with_machine p (record p.machine { csr = Csr.write_time p.machine.csr value })

  -- `ProcessCycle` up to the interrupt check.
  unfoldable pub begin_cycle : Processor D → Processor D
  begin_cycle p = with_machine (clear_op_event p) (record p.machine {
    trap_processor = TrapProcessor.clear_event p.machine.trap_processor;
    mem_access_unit = MemoryAccessUnit.clear_event p.machine.mem_access_unit;
    csr = Csr.process_cycle p.machine.csr;
  })

  -- `m_InterruptController.Update()`
  unfoldable pub update_interrupts : Sources → Processor D → Outcome (Processor D)
  update_interrupts sources p = do
    u ← update sources p.interrupt_controller p.machine.csr
    ok (record p {
      interrupt_controller = u.controller;
      machine = record p.machine { csr = u.csr };
    })

  -- The branch that takes the requested interrupt.
  unfoldable pub take_interrupt : Processor D → ℕ → PrivilegeLevel → Outcome (Processor D)
  take_interrupt p pc level = do
    d ←
        process_interrupt p.machine.trap_processor p.machine.csr
          p.interrupt_controller.interrupt_type pc
    ok (
        set_op_event
          (with_machine p (record p.machine { trap_processor = d.processor; csr = d.csr })) pc
          level)

module _ {D : Type 0} ⦃io : Io D⦄ ⦃wide : Wide⦄ ⦃floating : Floating D⦄ where
  -- The rest of `ProcessCycle` after `Fetch`.
  unfoldable pub after_fetch :
      Processor D → ℕ → PrivilegeLevel → Fetched → Machine D → Outcome (Processor D)
  after_fetch p pc level (fetch_trap t) m = do
    r ← raise t m
    ok (set_op_event (with_machine p r.1) pc level)
  after_fetch p pc level (fetched insn) m = do
    r ← process_insn p.xlen insn pc m
    ok (with_machine p r.1)

  -- The branch without an interrupt.
  unfoldable pub run_instruction : Processor D → ℕ → PrivilegeLevel → Outcome (Processor D)
  run_instruction p pc level = do r ← fetch pc p.machine; after_fetch p pc level r.0 r.1

  unfoldable pub run_or_interrupt : Processor D → ℕ → PrivilegeLevel → Outcome (Processor D)
  run_or_interrupt p pc level =
      if p.interrupt_controller.is_requested
      then take_interrupt p pc level
      else run_instruction p pc level

  -- `ProcessCycle()`. The program counter and the level are read before the interrupt check, which
  -- changes neither.
  unfoldable pub process_cycle : Sources → Processor D → Outcome (Processor D)
  process_cycle sources p =
      let q = begin_cycle p in
      update_interrupts sources q >>= λ r.
      run_or_interrupt r q.machine.csr.program_counter q.machine.csr.privilege_level
