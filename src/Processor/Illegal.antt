-- ===== src/Processor/Illegal.antt =====
-- src/rafi-emu/cpu/Processor.cpp: a word that is no instruction.
use rafi_emu.Common.{ℕ, true, false, ok, ◌≡◌, ◌≢◌, refl}
use rafi_emu.RvTypes.{machine, Xlen, xlen128, illegal_instruction, exception_code}
use rafi_emu.Trap.{make_illegal_instruction_exception}
use rafi_emu.Bus.{Io}
use rafi_emu.Csr.{Csr}
use rafi_emu.TrapProcessor.Enter.{with_event, EntersMachine, word_cause, word_base}
use rafi_emu.TrapProcessor.Delegate.{is_delegated, process_exception-machine_run}
use rafi_emu.Op.{Op}
use rafi_emu.Decoder.{decode32}
use rafi_emu.Executor.Machine.{Machine, Wide, ◌>>=◌, lift}
use rafi_emu.Executor.Process.{Floating}
use rafi_emu.Processor.Step.{is_unknown, raise, process_insn}

module _ {D : Type 0} ⦃io : Io D⦄ ⦃wide : Wide⦄ ⦃floating : Floating D⦄ where
  -- On RV32 and RV64, a word that decodes to the unknown op, where medeleg does not delegate the
  -- illegal instruction exception, enters machine mode at the handler of mtvec, with the code of that
  -- exception, the address of the word and the word itself in the trap registers. The trap event is
  -- recorded; all other control registers, the status fields but MPP, MPIE and MIE, the integer and
  -- floating registers, the reservation, the memory and the recorded accesses stay as they were.
  pub process_insn-illegal :
      (m : Machine D) (x : Xlen) (insn pc : ℕ) (o : Op)
      → decode32 x insn ≡ ok o
      → is_unknown o.op_code ≡ true
      → m.trap_processor.xlen ≢ xlen128
      → m.csr.xlen ≢ xlen128
      → is_delegated m.csr.machine_exception_delegation (make_illegal_instruction_exception pc insn)
        ≡ false
      → (c : Csr) × (process_insn x insn pc m
          ≡ ok (
            tt,
            record m {
              trap_processor =
                  with_event m.trap_processor false
                    (exception_code illegal_instruction)
                    insn
                    machine;
              csr = c;
            },
          ))
        × EntersMachine m.csr c
            (word_cause m.trap_processor.xlen false (exception_code illegal_instruction))
            pc
            insn
            (word_base m.trap_processor.xlen m.csr.machine_trap_vector)
  unfolding process_insn raise ◌>>=◌ lift
  process_insn-illegal m x insn pc o decoded unknown hp hc h =
      let (c, run, entered) =
        process_exception-machine_run m.trap_processor m.csr
          (make_illegal_instruction_exception pc insn) hp hc h in
      (c, rw (decoded, unknown, run) refl, entered)
