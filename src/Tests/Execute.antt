-- ===== src/Tests/Execute.antt =====
-- The theorems on the executor and on the cycle, at a concrete processor.
use rafi_emu.Common.{
  ◌≤◌, undefined, ℕ, ◌*◌, ◌/◌, ◌%◌, ◌-◌, ◌^◌, ltb, if◌then◌else◌, ◌∷◌, replicate, List, ◌≡◌, ◌+◌,
  refl, ok, false, set, Returns, arith, true, ◌≢◌, ◌<◌,
}
use rafi_emu.Word.{u64, sign_extend}
use rafi_emu.RvTypes.{
  xlen64, machine, machine_timer, machine_external, interrupt_code, xlen128, illegal_instruction,
  exception_code,
}
use rafi_emu.Op.{Op, OpClass, OpCode, op, operand_i, operand_none, operand_r}
use rafi_emu.Csr.{Csr, read_status, write_interrupt_pending, set_program_counter}
use rafi_emu.Csr as Csr
use rafi_emu.Csr.Read.{read_u32}
use rafi_emu.BitField.{get_member, set_member}
use rafi_emu.InterruptController.{
  Updated, update, update_csr, update_timer, update_external, find_interrupt, interrupts_enabled,
}
use rafi_emu.Processor.Jump.{process_insn-j_word}
use rafi_emu.Processor.Interrupts.{Interrupted, process_cycle-interrupt}
use rafi_emu.TrapProcessor.Enter.{with_event, EntersMachine, word_cause, word_base}
use rafi_emu.RegFile.Atomic.{cancel}
use rafi_emu.Decoder.{is_compressed_instruction, decode32}
use rafi_emu.Decoder.Compressed.{decode_c, decode_c_op, decode_c_quadrant_0}
use rafi_emu.Executor.Atomics.{process_rv64a_store64}
use rafi_emu.Executor.StoreConditional.{process_rv64a_store64-fails}
use rafi_emu.Executor.MulDiv32.{mul_div_rv32m}
use rafi_emu.Executor.WordShifts.{sllw_code, process_op-word_shift}
use rafi_emu.Executor.MulDivLaws.{mul_div_rv32m-unsigned}
use rafi_emu.Processor.Step.{is_unknown, process_insn}
use rafi_emu.Processor.Illegal.{process_insn-illegal}
use rafi_emu.RegFile.Floating.{new_fp}
use rafi_emu.Decoder.Integer.{decode_i}
use rafi_emu.Decoder.Operand.{pick}
use rafi_emu.Decoder.Formats.{r_word, j_word}
use rafi_emu.Decoder.RFormat.{sub_code}
use rafi_emu.Executor.Machine.{Machine, Wide, pure}
use rafi_emu.Executor.Process.{Floating, process_op}
use rafi_emu.Executor.Keeps.{Keeps, Leaves, IsMachine}
use rafi_emu.Executor.KeepsOp.{process_op-Keeps}
use rafi_emu.Executor.Handled.{major_opcode, Handled, op_imm_opcode, decode_i-Handled}
use rafi_emu.Processor.Cycle.{Processor, process_cycle}
use rafi_emu.Processor.Keeps.{IsFloatingOff, IsProcessor, process_cycle-IsProcessor}
use rafi_emu.Processor.Alu.{value64, process_insn-r_word}
use rafi_emu.Tests.Inputs.{machine_registers, processor, board, access_unit, timer_only, latch}

abbrev if_negative : ℕ → ℕ → ℕ
if_negative a b = if ltb a (2 ^ 63) then 0 else b

instance abbrev products : Wide
products = record {
  mulh = λ a b. (a * b / 2 ^ 64 + (2 ^ 64 - if_negative a b) + (2 ^ 64 - if_negative b a)) % 2 ^ 64;
  mulhsu = λ a b. (a * b / 2 ^ 64 + (2 ^ 64 - if_negative a b)) % 2 ^ 64;
  mulhu = λ a b. a * b / 2 ^ 64;
}

-- A core without floating-point instructions.
instance abbrev no_floating : Floating (List ℕ)
no_floating = record { process_rvf = λ o. pure tt; process_rvd = λ o. pure tt }

abbrev core : Machine (List ℕ)
core = record {
  atomic_manager = record { address = 0; reserved = false };
  csr = machine_registers;
  trap_processor = processor;
  int_reg_file = record { entries = 0 ∷ 1 ∷ 2 ∷ 3 ∷ 4 ∷ 5 ∷ 60 ∷ 7 ∷ replicate 24 0 };
  fp_reg_file = new_fp;
  mem_access_unit = access_unit;
  bus = board;
}

core-IsMachine : IsMachine core
core-IsMachine = record { size = refl; x0 = refl }

core-IsFloatingOff : IsFloatingOff core
unfolding get_member
core-IsFloatingOff = refl

abbrev hart : Processor (List ℕ)
hart = record {
  xlen = xlen64;
  machine = core;
  interrupt_controller = record { is_requested = false; interrupt_type = machine_timer };
  op_count = 0;
  op_event_valid = false;
  op_event = record {
    op_id = 0;
    insn = 0;
    privilege_level = machine;
    virtual_pc = 0;
    physical_pc = 0;
  };
}

-- `addi t0, t1, 5`
abbrev addi_op : Op
addi_op = op OpClass.rv64i OpCode.addi (operand_i 5 5 6 0)

process_op-Keeps_example : Keeps {D = List ℕ} (process_op addi_op 0x8000_0000)
process_op-Keeps_example = process_op-Keeps addi_op 0x8000_0000 refl

opcode_of_addi : pick 0x00150513 0 7 ≡ 0b0010011
unfolding pick
opcode_of_addi = refl

-- `addi a0, a0, 1`
decode_i-Handled_example : Returns (Handled {D = List ℕ} process_op) (decode_i xlen64 0x00150513)
decode_i-Handled_example =
    decode_i-Handled 0x00150513 (major_opcode 0b0010011 op_imm_opcode opcode_of_addi)

process_cycle-IsProcessor_example : Leaves IsProcessor (process_cycle timer_only hart)
process_cycle-IsProcessor_example =
    process_cycle-IsProcessor timer_only hart core-IsFloatingOff core-IsMachine

-- `sub t0, t1, t2`
process_insn-r_word_example :
    process_insn xlen64 (r_word 0b0110011 5 0 6 7 32) 0x8000_0000 core
    ≡ ok (
      tt,
      record core {
        csr = set_program_counter core.csr (u64 (0x8000_0000 + 4));
        int_reg_file = record {
          entries = set core.int_reg_file.entries 5 (value64 OpCode.sub 60 7);
        };
      },
    )
process_insn-r_word_example =
    process_insn-r_word core OpCode.sub 5 6 7 0 32 60 7 0x8000_0000 sub_code (omega arith)
      (omega arith) (omega arith) (λ e. cc) core-IsMachine refl refl

xlen64≢xlen128 : xlen64 ≢ xlen128
xlen64≢xlen128 h = cc

-- The word of zeros is no instruction on RV64.
no_instruction : decode32 xlen64 0 ≡ ok (op OpClass.rv64c OpCode.unknown operand_none)
unfolding decode32 is_compressed_instruction decode_c decode_c_op decode_c_quadrant_0 pick
no_instruction = refl

is_unknown-unknown : is_unknown OpCode.unknown ≡ true
unfolding is_unknown
is_unknown-unknown = refl

process_insn-illegal_example :
    (c : Csr) × (process_insn xlen64 0 0x8000_0000 core
      ≡ ok (
        tt,
        record core {
          trap_processor =
              with_event core.trap_processor false (exception_code illegal_instruction) 0 machine;
          csr = c;
        },
      ))
    × EntersMachine core.csr c
        (word_cause core.trap_processor.xlen false (exception_code illegal_instruction))
        0x8000_0000
        0
        (word_base core.trap_processor.xlen core.csr.machine_trap_vector)
process_insn-illegal_example =
    process_insn-illegal core xlen64 0 0x8000_0000 (op OpClass.rv64c OpCode.unknown operand_none)
      no_instruction is_unknown-unknown xlen64≢xlen128 xlen64≢xlen128 refl

-- `sc.d t0, t2, (t1)` without a reservation
process_rv64a_store64-fails_example :
    process_rv64a_store64 (op OpClass.rv64a OpCode.sc_d (operand_r 5 6 7 3 12)) core
    ≡ ok (
      tt,
      record core {
        atomic_manager = cancel core.atomic_manager;
        int_reg_file = record { entries = set core.int_reg_file.entries 5 1 };
      },
    )
process_rv64a_store64-fails_example =
    process_rv64a_store64-fails core 5 6 7 60 7 3 12 (omega arith) (omega arith) (omega arith)
      (λ e. cc) core-IsMachine refl refl refl

abbrev dividend : ℕ
dividend = 0xffff_ffff

abbrev divisor : ℕ
divisor = 10

mul_div_rv32m-unsigned_example :
    (high : ℕ) × (low : ℕ) × (q : ℕ) × (r : ℕ) × (mul_div_rv32m OpCode.mulhu dividend divisor
      ≡ ok high)
    × (mul_div_rv32m OpCode.mul dividend divisor ≡ ok low)
    × (mul_div_rv32m OpCode.divu dividend divisor ≡ ok q)
    × (mul_div_rv32m OpCode.remu dividend divisor ≡ ok r)
    × (high * 2 ^ 32 + low ≡ dividend * divisor)
    × (low < 2 ^ 32)
    × (divisor ≢ 0 → (q * divisor + r ≡ dividend) × (r < divisor))
    × (divisor ≡ 0 → (q ≡ 2 ^ 32 - 1) × (r ≡ dividend))
mul_div_rv32m-unsigned_example = mul_div_rv32m-unsigned dividend divisor (omega arith) (omega arith)

-- The timer requests: the controller sets MTIP and MEIP, and the external interrupt comes first.
abbrev ticked : Updated
ticked = record {
  controller = record { is_requested = true; interrupt_type = machine_external };
  csr = record machine_registers {
    interrupt_pending = 0x880;
    cycle_counter = 1;
    time_counter = 1;
    instruction_retired_counter = 1;
  };
}

update-ticked :
    update timer_only hart.interrupt_controller (Csr.process_cycle machine_registers) ≡ ok ticked
unfolding update update_csr update_timer update_external find_interrupt interrupts_enabled
    Csr.process_cycle read_status read_u32 write_interrupt_pending get_member set_member
update-ticked = refl

process_cycle-interrupt_example :
    (r : Processor (List ℕ)) × (process_cycle timer_only hart ≡ ok r)
    × EntersMachine ticked.csr r.machine.csr
        (word_cause hart.machine.trap_processor.xlen true
          (interrupt_code ticked.controller.interrupt_type))
        hart.machine.csr.program_counter
        0
        r.machine.csr.program_counter
    × Interrupted hart r
process_cycle-interrupt_example =
    process_cycle-interrupt timer_only hart ticked update-ticked refl refl xlen64≢xlen128
      xlen64≢xlen128

-- `jal ra, .-4`
process_insn-j_word_example :
    process_insn xlen64 (j_word 0b1101111 1 0x1f_fffc) 0x8000_0000 core
    ≡ ok (
      tt,
      record core {
        csr = set_program_counter core.csr (u64 (0x8000_0000 + sign_extend 64 21 0x1f_fffc));
        int_reg_file = record { entries = set core.int_reg_file.entries 1 (u64 (0x8000_0000 + 4)) };
      },
    )
process_insn-j_word_example =
    process_insn-j_word core 1 0x1f_fffc 0x8000_0000 (omega arith) (λ e. cc) (omega arith) refl
      core-IsMachine

-- `sllw t0, t2, t1`, where t1 is 60
process_op-word_shift_example :
    (60 % 64 < 32
      → (v : ℕ) × (process_op (op OpClass.rv64i OpCode.sllw (operand_r 5 7 6 1 0)) 0x8000_0000 core
          ≡ ok (
            tt,
            record core { int_reg_file = record { entries = set core.int_reg_file.entries 5 v } },
          )))
    × (32 ≤ 60 % 64
        → process_op (op OpClass.rv64i OpCode.sllw (operand_r 5 7 6 1 0)) 0x8000_0000 core
          ≡ undefined)
process_op-word_shift_example =
    process_op-word_shift OpCode.sllw core 5 7 6 1 0 7 60 0x8000_0000 sllw_code (omega arith)
      (omega arith) (omega arith) (λ e. cc) core-IsMachine refl refl
