-- ===== src/Executor/Values32.antt =====
-- src/rafi-emu/cpu/Executor.cpp: the values that the RV32I instructions compute.
use Prim.Native.Nat.{bit_xor}
use rafi_emu.Common.{ℕ, bit_and, bit_or, Bool, ltb, ◌==◌, not, Outcome, ok}
use rafi_emu.Op.{OpCode}
use rafi_emu.Executor.Arith.{
  add, sub, bit_not, of_bool, less, shift_left, shift_right, shift_right_signed,
}
use rafi_emu.Executor.Machine.{error}

unfoldable pub alu_rv32i : OpCode → ℕ → ℕ → Outcome ℕ
alu_rv32i OpCode.add a b = ok (add 32 a b)
alu_rv32i OpCode.sub a b = ok (sub 32 a b)
alu_rv32i OpCode.slt a b = ok (of_bool (less 32 a b))
alu_rv32i OpCode.sltu a b = ok (of_bool (ltb a b))
alu_rv32i OpCode.xor_ a b = ok (bit_xor a b)
alu_rv32i OpCode.or_ a b = ok (bit_or a b)
alu_rv32i OpCode.and_ a b = ok (bit_and a b)
alu_rv32i _ _ _ = error

unfoldable pub alu_imm_rv32i : OpCode → ℕ → ℕ → Outcome ℕ
alu_imm_rv32i OpCode.addi a imm = ok (add 32 a imm)
alu_imm_rv32i OpCode.slti a imm = ok (of_bool (less 32 a imm))
alu_imm_rv32i OpCode.sltiu a imm = ok (of_bool (ltb a imm))
alu_imm_rv32i OpCode.xori a imm = ok (bit_xor a imm)
alu_imm_rv32i OpCode.ori a imm = ok (bit_or a imm)
alu_imm_rv32i OpCode.andi a imm = ok (bit_and a imm)
alu_imm_rv32i _ _ _ = error

unfoldable pub shift_rv32i : OpCode → ℕ → ℕ → Outcome ℕ
shift_rv32i OpCode.sll a n = shift_left 32 a n
shift_rv32i OpCode.srl a n = shift_right 32 a n
shift_rv32i OpCode.sra a n = shift_right_signed 32 a n
shift_rv32i _ _ _ = error

unfoldable pub shift_imm_rv32i : OpCode → ℕ → ℕ → Outcome ℕ
shift_imm_rv32i OpCode.slli a n = shift_left 32 a n
shift_imm_rv32i OpCode.srli a n = shift_right 32 a n
shift_imm_rv32i OpCode.srai a n = shift_right_signed 32 a n
shift_imm_rv32i _ _ _ = error

unfoldable pub branch_rv32i : OpCode → ℕ → ℕ → Outcome Bool
branch_rv32i OpCode.beq a b = ok (a == b)
branch_rv32i OpCode.bne a b = ok (not (a == b))
branch_rv32i OpCode.blt a b = ok (less 32 a b)
branch_rv32i OpCode.bge a b = ok (not (less 32 a b))
branch_rv32i OpCode.bltu a b = ok (ltb a b)
branch_rv32i OpCode.bgeu a b = ok (not (ltb a b))
branch_rv32i _ _ _ = error

unfoldable pub csr_rv32i : OpCode → ℕ → ℕ → Outcome ℕ
csr_rv32i OpCode.csrrw c s = ok s
csr_rv32i OpCode.csrrs c s = ok (bit_or c s)
csr_rv32i OpCode.csrrc c s = ok (bit_and c (bit_not 32 s))
csr_rv32i _ _ _ = error

unfoldable pub csr_imm_rv32i : OpCode → ℕ → ℕ → Outcome ℕ
csr_imm_rv32i OpCode.csrrwi c s = ok s
csr_imm_rv32i OpCode.csrrsi c s = ok (bit_or c s)
csr_imm_rv32i OpCode.csrrci c s = ok (bit_and c (bit_not 32 s))
csr_imm_rv32i _ _ _ = error
