-- ===== src/Executor/ValuesC32.antt =====
-- src/rafi-emu/cpu/Executor.cpp: the values that the RV32C instructions compute. An `int64_t` immediate
-- widens the other operand of its operator.
use Prim.Native.Nat.{bit_xor}
use rafi_emu.Common.{ℕ, ◌+◌, bit_and, bit_or, Bool, ◌==◌, not, Outcome, ok}
use rafi_emu.Word.{u32, sext32}
use rafi_emu.Op.{OpCode}
use rafi_emu.Executor.Arith.{add, sub, shift_left, shift_right, shift_right_signed}
use rafi_emu.Executor.Machine.{error}

unfoldable pub alu_rv32c : OpCode → ℕ → ℕ → Outcome ℕ
alu_rv32c OpCode.c_mv a b = ok b
alu_rv32c OpCode.c_add a b = ok (add 32 a b)
alu_rv32c OpCode.c_sub a b = ok (sub 32 a b)
alu_rv32c OpCode.c_and a b = ok (bit_and a b)
alu_rv32c OpCode.c_or a b = ok (bit_or a b)
alu_rv32c OpCode.c_xor a b = ok (bit_xor a b)
alu_rv32c _ _ _ = error

unfoldable pub alu_imm_rv32c : OpCode → ℕ → ℕ → Outcome ℕ
alu_imm_rv32c OpCode.c_li a imm = ok (u32 imm)
alu_imm_rv32c OpCode.c_lui a imm = ok (u32 imm)
alu_imm_rv32c OpCode.c_addi a imm = ok (u32 (sext32 a + imm))
alu_imm_rv32c OpCode.c_andi a imm = ok (u32 (bit_and (sext32 a) imm))
alu_imm_rv32c OpCode.c_srli a imm = shift_right 32 a imm
alu_imm_rv32c OpCode.c_srai a imm = shift_right_signed 32 a imm
alu_imm_rv32c OpCode.c_slli a imm = shift_left 32 a imm
alu_imm_rv32c _ _ _ = error

unfoldable pub branch_rv32c : OpCode → ℕ → Outcome Bool
branch_rv32c OpCode.c_beqz a = ok (a == 0)
branch_rv32c OpCode.c_bnez a = ok (not (a == 0))
branch_rv32c _ _ = error
