-- ===== src/TrapProcessor/Interrupt.antt =====
-- Interrupts into machine mode: `ProcessInterrupt` of src/rafi-emu/cpu/TrapProcessor.cpp, and the vectored mode of
-- mtvec.
use rafi_emu.Common.{
  ℕ, ◌+◌, ◌*◌, ◌^◌, ◌<◌, ◌≡◌, refl, ◌∙◌, ◌≢◌, arith, true, false, is_set, ok, bit_and,
}
use rafi_emu.BitField.{get_member}
use rafi_emu.Word.{u64}
use rafi_emu.RvTypes.{xlen128, machine, InterruptType, machine_external, interrupt_code}
use rafi_emu.RvCsr.Tvec
use rafi_emu.Csr.{Csr}
use rafi_emu.Csr.Read.{read_u64}
use rafi_emu.TrapProcessor.{
  TrapProcessor, Done, process_trap_enter, process_interrupt, delegated_level, handler_address,
}
use rafi_emu.TrapProcessor.Enter.{
  EntersMachine, process_trap_enter-machine, with_event, word_base, word_cause,
}

interrupt_code-lt : (t : InterruptType) → interrupt_code t < 12
interrupt_code-lt machine_external = omega arith
interrupt_code-lt _ = omega arith

handler_address-vectored :
    (code base vector : ℕ)
    → code < 12
    → get_member Tvec.mode vector ≡ 1
    → handler_address true code base vector ≡ u64 (base + 4 * code)
unfolding handler_address
handler_address-vectored code base vector h m = ground arith

handler_address-direct :
    (code base vector : ℕ)
    → get_member Tvec.mode vector ≢ 1
    → handler_address true code base vector ≡ base
unfolding handler_address
handler_address-direct code base vector m = ground arith

process_interrupt-delegated_level :
    (p : TrapProcessor) (c : Csr) (t : InterruptType) (pc : ℕ)
    → process_interrupt p c t pc
      ≡ process_trap_enter p c true (interrupt_code t) 0 pc (
          delegated_level c.machine_interrupt_delegation c.supervisor_interrupt_delegation
            (interrupt_code t))
unfolding process_interrupt read_u64
process_interrupt-delegated_level p c t pc = refl

-- On RV32 and RV64, an interrupt whose bit in mideleg is clear is taken in machine mode, with the
-- top bit of the cause set and a trap value of 0. The handler is the base of mtvec, and in vectored
-- mode the base plus four times the code.
pub process_interrupt-machine :
    (p : TrapProcessor) (c : Csr) (t : InterruptType) (pc : ℕ)
    → p.xlen ≢ xlen128
    → c.xlen ≢ xlen128
    → is_set (bit_and c.machine_interrupt_delegation (2 ^ interrupt_code t)) ≡ false
    → (r : Done) × (process_interrupt p c t pc ≡ ok r)
      × EntersMachine c r.csr (word_cause p.xlen true (interrupt_code t)) pc 0 r.csr.program_counter
      × (get_member Tvec.mode c.machine_trap_vector ≡ 1
          → r.csr.program_counter
            ≡ u64 (word_base p.xlen c.machine_trap_vector + 4 * interrupt_code t))
      × (get_member Tvec.mode c.machine_trap_vector ≢ 1
          → r.csr.program_counter ≡ word_base p.xlen c.machine_trap_vector)
unfolding delegated_level
process_interrupt-machine p c t pc hp hc h =
    let (d, run, e) = process_trap_enter-machine p c true (interrupt_code t) 0 pc hp hc in
    (
      record { processor = with_event p true (interrupt_code t) 0 machine; csr = d },
      rw (process_interrupt-delegated_level p c t pc, h, delegated_level) run,
      record {
        same_xlen = e.same_xlen;
        at_level = e.at_level;
        saved_pc = e.saved_pc;
        saved_cause = e.saved_cause;
        saved_value = e.saved_value;
        saved_level = e.saved_level;
        saved_enable = e.saved_enable;
        masked = e.masked;
        goes_to = refl;
        rest = e.rest;
      },
      λ m. e.goes_to ∙ handler_address-vectored (interrupt_code t) _ _ (interrupt_code-lt t) m,
      λ m. e.goes_to ∙ handler_address-direct (interrupt_code t) _ _ m,
    )
