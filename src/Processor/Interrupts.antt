-- ===== src/Processor/Interrupts.antt =====
-- src/rafi-emu/cpu/Processor.cpp: a cycle in which the interrupt controller requests an interrupt.
use rafi_emu.Common.{◌^◌, true, false, ok, ◌≡◌, ◌≢◌, refl, is_set, bit_and}
use rafi_emu.RvTypes.{xlen128, interrupt_code}
use rafi_emu.Bus.{Io}
use rafi_emu.Csr as Csr
use rafi_emu.InterruptController.{Sources, Updated, update}
use rafi_emu.MemoryAccessUnit.Translate as MemoryAccessUnit
use rafi_emu.TrapProcessor.{clear_event}
use rafi_emu.TrapProcessor.Enter.{EntersMachine, word_cause}
use rafi_emu.TrapProcessor.Interrupt.{process_interrupt-machine}
use rafi_emu.Executor.Machine.{Wide}
use rafi_emu.Executor.Process.{Floating}
use rafi_emu.Processor.Cycle.{
  Processor, process_cycle, begin_cycle, update_interrupts, run_or_interrupt, take_interrupt,
  with_machine, set_op_event, clear_op_event,
}

-- A cycle that took an interrupt executed no instruction: the register files, the reservation, the
-- memory and the devices are as before, no access is recorded, and the op event holds the address
-- of the instruction that was due and the level it would have run at.
pub record Interrupted {D : Type 0} (p r : Processor D) : Type 0 where
  pub int_reg_file : r.machine.int_reg_file ≡ p.machine.int_reg_file
  pub fp_reg_file : r.machine.fp_reg_file ≡ p.machine.fp_reg_file
  pub atomic_manager : r.machine.atomic_manager ≡ p.machine.atomic_manager
  pub bus : r.machine.bus ≡ p.machine.bus
  pub accesses : r.machine.mem_access_unit ≡ MemoryAccessUnit.clear_event p.machine.mem_access_unit
  pub event_valid : r.op_event_valid ≡ true
  pub event_pc : r.op_event.virtual_pc ≡ p.machine.csr.program_counter
  pub event_level : r.op_event.privilege_level ≡ p.machine.csr.privilege_level

module _ {D : Type 0} ⦃io : Io D⦄ ⦃wide : Wide⦄ ⦃floating : Floating D⦄ where
  -- On RV32 and RV64, when the update of the interrupt controller at the start of a cycle requests an
  -- interrupt that mideleg does not delegate, the cycle returns and takes it: it enters machine mode
  -- with the address of the instruction that was due in mepc and the code in mcause, and executes no
  -- instruction.
  pub process_cycle-interrupt :
      (sources : Sources) (p : Processor D) (u : Updated)
      → update sources p.interrupt_controller (Csr.process_cycle p.machine.csr) ≡ ok u
      → u.controller.is_requested ≡ true
      → is_set (
          bit_and u.csr.machine_interrupt_delegation
            (2 ^ interrupt_code u.controller.interrupt_type))
        ≡ false
      → p.machine.trap_processor.xlen ≢ xlen128
      → u.csr.xlen ≢ xlen128
      → (r : Processor D) × (process_cycle sources p ≡ ok r)
        × EntersMachine u.csr r.machine.csr
            (word_cause p.machine.trap_processor.xlen true
              (interrupt_code u.controller.interrupt_type))
            p.machine.csr.program_counter
            0
            r.machine.csr.program_counter
        × Interrupted p r
  unfolding process_cycle begin_cycle update_interrupts run_or_interrupt take_interrupt with_machine
      set_op_event clear_op_event Csr.process_cycle clear_event
  process_cycle-interrupt sources p u updated requested direct hp hc =
      let (d, run, entered, _, _) =
        process_interrupt-machine (clear_event p.machine.trap_processor) u.csr
          u.controller.interrupt_type p.machine.csr.program_counter hp hc direct in
      let q = begin_cycle p in
      let v : Processor D = record q {
        interrupt_controller = u.controller;
        machine = record q.machine { csr = u.csr };
      } in
      let taken = with_machine v (record v.machine { trap_processor = d.processor; csr = d.csr }) in
      (
        set_op_event taken p.machine.csr.program_counter p.machine.csr.privilege_level,
        rw (updated, requested, run) refl,
        entered,
        record {
          int_reg_file = refl;
          fp_reg_file = refl;
          atomic_manager = refl;
          bus = refl;
          accesses = refl;
          event_valid = refl;
          event_pc = refl;
          event_level = refl;
        },
      )
