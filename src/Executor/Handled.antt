-- ===== src/Executor/Handled.antt =====
-- The RV64I instructions on registers, from src/librafi_common/DecoderImpl.cpp to src/rafi-emu/cpu/Executor.cpp.
use rafi_emu.Common.{
  ok, if◌then◌else◌, ◌==◌, ℕ, ◌<◌, ◌≡◌, refl, arith, Returns, returns, Returns-if, bit_and, lt→ltb,
}
use rafi_emu.Bits.Fields.{bit_and_mask}
use rafi_emu.Bus.{Io}
use rafi_emu.Op.{Op, OpClass, OpCode, op, operand_none}
use rafi_emu.Decoder.Operand.{
  pick, decode_operand_r, decode_operand_i, decode_operand_b, decode_operand_j, decode_operand_u,
  decode_operand_shift_imm_32, decode_operand_shift_imm_64,
}
use rafi_emu.Decoder.Registers.{pick_lt}
use rafi_emu.Decoder.IntegerOps.{
  decode_i_alu, decode_i_op_imm, decode_i_op_imm_32, decode_i_alu_32, decode_i_branch,
  decode_i_fence,
}
use rafi_emu.Executor.Arith.{shift_left, shift_right, shift_right_signed}
use rafi_emu.Executor.Machine.{Wide, E}
use rafi_emu.RvTypes.{xlen64}
use rafi_emu.Decoder.Integer.{decode_i, decode_i_op}
use rafi_emu.Decoder.Results.{unknown_op}
use rafi_emu.Executor.Runs.{Runs, run_steps, IsOk, IsOk-bind}
use rafi_emu.Executor.Values64.{
  alu_rv64i, alu_imm_rv64i, shift_rv64i, shift_imm_rv64i, branch_rv64i,
}
use rafi_emu.Executor.Rv64I.{
  process_rv64i_alu, process_rv64i_alu_imm, process_rv64i_shift, process_rv64i_shift_imm,
  process_rv64i_branch, process_rv64i_jal, process_rv64i_jalr, process_rv64i_lui,
  process_rv64i_auipc, jump_if64,
}
use rafi_emu.Executor.System64.{process_rv64i_fence}
use rafi_emu.Executor.Integer64.{process_rv64i_code, process_rv64i}
use rafi_emu.Executor.Process.{Floating, process_op_class, process_op}

pick_lt5 : (insn lsb : ℕ) → pick insn lsb 5 < 32
pick_lt5 insn lsb = pick_lt 5 insn lsb

pick_lt6 : (insn lsb : ℕ) → pick insn lsb 6 < 64
pick_lt6 insn lsb = pick_lt 6 insn lsb

wide_lt : (insn lsb : ℕ) → pick insn lsb 5 < 64
wide_lt insn lsb = omega (arith, pick_lt 5 insn lsb)

masked_lt : (n : ℕ) → bit_and n 0x3f < 64
masked_lt n = rw (bit_and_mask 6 n) (omega arith)

shift_left-IsOk : (w a n : ℕ) → n < w → IsOk (shift_left w a n)
unfolding shift_left
shift_left-IsOk w a n h = rw (lt→ltb n w h) (returns tt)

shift_right-IsOk : (w a n : ℕ) → n < w → IsOk (shift_right w a n)
unfolding shift_right
shift_right-IsOk w a n h = rw (lt→ltb n w h) (returns tt)

shift_right_signed-IsOk : (w a n : ℕ) → n < w → IsOk (shift_right_signed w a n)
unfolding shift_right_signed
shift_right_signed-IsOk w a n h = rw (lt→ltb n w h) (returns tt)

-- `ProcessOp`, here `run`, returns on the op from every whole machine, or there is no such
-- instruction.
pub data Handled {D : Type 0} (run : Op → ℕ → E D (Unit {0})) (o : Op) : Type 0 where
  unknown_code : o.op_code ≡ OpCode.unknown → Handled run o
  handled : ((pc : ℕ) → Runs (run o pc)) → Handled run o

unknown-Handled :
    {D : Type 0} {run : Op → ℕ → E D (Unit {0})} (c : OpClass)
    → Handled run (op c OpCode.unknown operand_none)
unknown-Handled c = unknown_code refl

ruleset shifts = (
  shift_left-IsOk, shift_right-IsOk, shift_right_signed-IsOk, IsOk-bind, returns, pick_lt5,
  pick_lt6, wide_lt, masked_lt,
)

ruleset handles = (Returns-if, returns, unknown-Handled, handled, run_steps, shifts)

module _ {D : Type 0} ⦃io : Io D⦄ ⦃wide : Wide⦄ ⦃floating : Floating D⦄ where
  pub decode_i_alu-Handled :
      (insn : ℕ) → Returns (Handled {D = D} process_op) (decode_i_alu OpClass.rv64i insn)
  unfolding decode_i_alu process_op process_op_class process_rv64i process_rv64i_code
      decode_operand_r process_rv64i_alu process_rv64i_shift alu_rv64i shift_rv64i
  decode_i_alu-Handled insn = search (handles) depth 60 fits 4000

  pub decode_i_op_imm-Handled :
      (insn : ℕ) → Returns (Handled {D = D} process_op) (decode_i_op_imm OpClass.rv64i insn)
  unfolding decode_i_op_imm process_op process_op_class process_rv64i process_rv64i_code
      decode_operand_i decode_operand_shift_imm_32 decode_operand_shift_imm_64 process_rv64i_alu_imm
      process_rv64i_shift_imm alu_imm_rv64i shift_imm_rv64i
  decode_i_op_imm-Handled insn = search (handles) depth 60 fits 4000

  pub decode_i_op_imm_32-Handled :
      (insn : ℕ) → Returns (Handled {D = D} process_op) (decode_i_op_imm_32 OpClass.rv64i insn)
  unfolding decode_i_op_imm_32 process_op process_op_class process_rv64i process_rv64i_code
      decode_operand_i decode_operand_shift_imm_32 process_rv64i_alu_imm process_rv64i_shift_imm
      alu_imm_rv64i shift_imm_rv64i
  decode_i_op_imm_32-Handled insn = search (handles) depth 60 fits 4000

  pub decode_i_branch-Handled :
      (insn : ℕ) → Returns (Handled {D = D} process_op) (decode_i_branch OpClass.rv64i insn)
  unfolding decode_i_branch process_op process_op_class process_rv64i process_rv64i_code
      decode_operand_b process_rv64i_branch branch_rv64i jump_if64
  decode_i_branch-Handled insn = search (handles) depth 60 fits 4000

  pub decode_i_fence-Handled :
      (insn : ℕ) → Returns (Handled {D = D} process_op) (decode_i_fence OpClass.rv64i insn)
  unfolding decode_i_fence process_op process_op_class process_rv64i process_rv64i_code
      process_rv64i_fence
  decode_i_fence-Handled insn = search (handles) depth 60 fits 4000

  lui-Handled :
      (insn : ℕ)
      → Returns
          (Handled {D = D} process_op)
          (ok (op OpClass.rv64i OpCode.lui (decode_operand_u insn)))
  unfolding process_op process_op_class process_rv64i process_rv64i_code decode_operand_u
      process_rv64i_lui
  lui-Handled insn = search (handles) depth 60

  auipc-Handled :
      (insn : ℕ)
      → Returns
          (Handled {D = D} process_op)
          (ok (op OpClass.rv64i OpCode.auipc (decode_operand_u insn)))
  unfolding process_op process_op_class process_rv64i process_rv64i_code decode_operand_u
      process_rv64i_auipc
  auipc-Handled insn = search (handles) depth 60

  jal-Handled :
      (insn : ℕ)
      → Returns
          (Handled {D = D} process_op)
          (ok (op OpClass.rv64i OpCode.jal (decode_operand_j insn)))
  unfolding process_op process_op_class process_rv64i process_rv64i_code decode_operand_j
      process_rv64i_jal
  jal-Handled insn = search (handles) depth 60

  jalr-Handled :
      (insn : ℕ)
      → Returns (Handled {D = D} process_op) (
          if pick insn 12 3 == 0
          then ok (op OpClass.rv64i OpCode.jalr (decode_operand_i insn))
          else unknown_op OpClass.rv64i)
  unfolding process_op process_op_class process_rv64i process_rv64i_code decode_operand_i
      process_rv64i_jalr
  jalr-Handled insn = search (handles) depth 60

  alu_32-Handled :
      (insn : ℕ)
      → pick insn 12 3 ≡ 0
      → Returns (Handled {D = D} process_op) (decode_i_alu_32 OpClass.rv64i insn)
  unfolding decode_i_alu_32 process_op process_op_class process_rv64i process_rv64i_code
      decode_operand_r process_rv64i_alu alu_rv64i
  alu_32-Handled insn e = rw e (search (handles) depth 60 fits 4000)

-- The major opcodes of the RV64I instructions on registers, less OP-32.
pub data IsRegisterOpcode : ℕ → Type 0 where
  lui_opcode : IsRegisterOpcode 0b0110111
  auipc_opcode : IsRegisterOpcode 0b0010111
  jal_opcode : IsRegisterOpcode 0b1101111
  jalr_opcode : IsRegisterOpcode 0b1100111
  branch_opcode : IsRegisterOpcode 0b1100011
  op_imm_opcode : IsRegisterOpcode 0b0010011
  op_opcode : IsRegisterOpcode 0b0110011
  op_imm_32_opcode : IsRegisterOpcode 0b0011011
  fence_opcode : IsRegisterOpcode 0b0001111

-- The words of those instructions, and those of OP-32 with funct3 0, which are ADDW and SUBW; the
-- others of OP-32 shift.
pub data IsRegisterWord (insn : ℕ) : Type 0 where
  major_opcode : (k : ℕ) → IsRegisterOpcode k → pick insn 0 7 ≡ k → IsRegisterWord insn
  add_word : pick insn 0 7 ≡ 0b0111011 → pick insn 12 3 ≡ 0 → IsRegisterWord insn

module _ {D : Type 0} ⦃io : Io D⦄ ⦃wide : Wide⦄ ⦃floating : Floating D⦄ where
  -- On RV64, `DecodeI` returns on every word whose major opcode is LUI, AUIPC, JAL, JALR, BRANCH,
  -- OP-IMM, OP, OP-IMM-32 or MISC-MEM, or is OP-32 with funct3 0, and `ProcessOp` returns on the op, unless its code is
  -- `unknown`, from every machine whose register file has 32 entries and 0 in x0, and leaves such a
  -- machine.
  pub decode_i-Handled :
      (insn : ℕ) → IsRegisterWord insn → Returns (Handled {D = D} process_op) (decode_i xlen64 insn)
  unfolding decode_i decode_i_op
  decode_i-Handled insn (major_opcode _ lui_opcode e) = rw e (lui-Handled insn)
  decode_i-Handled insn (major_opcode _ auipc_opcode e) = rw e (auipc-Handled insn)
  decode_i-Handled insn (major_opcode _ jal_opcode e) = rw e (jal-Handled insn)
  decode_i-Handled insn (major_opcode _ jalr_opcode e) = rw e (jalr-Handled insn)
  decode_i-Handled insn (major_opcode _ branch_opcode e) = rw e (decode_i_branch-Handled insn)
  decode_i-Handled insn (major_opcode _ op_imm_opcode e) = rw e (decode_i_op_imm-Handled insn)
  decode_i-Handled insn (major_opcode _ op_opcode e) = rw e (decode_i_alu-Handled insn)
  decode_i-Handled insn (major_opcode _ op_imm_32_opcode e) = rw e (decode_i_op_imm_32-Handled insn)
  decode_i-Handled insn (major_opcode _ fence_opcode e) = rw e (decode_i_fence-Handled insn)
  decode_i-Handled insn (add_word e f) = rw e (alu_32-Handled insn f)
