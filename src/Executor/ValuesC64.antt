-- ===== src/Executor/ValuesC64.antt =====
-- src/rafi-emu/cpu/Executor.cpp: the values that the RV64C instructions compute. An `int64_t` immediate
-- widens the other operand of its operator.
use Prim.Native.Nat.{bit_xor}
use rafi_emu.Common.{ℕ, ◌+◌, bit_and, bit_or, Bool, ◌==◌, not, Outcome, ok}
use rafi_emu.Word.{u64, sext32, sign_extend}
use rafi_emu.Op.{OpCode}
use rafi_emu.Executor.Arith.{add, sub, shift_left, shift_right, shift_right_signed}
use rafi_emu.Executor.Machine.{error}

unfoldable pub alu_rv64c : OpCode → ℕ → ℕ → ℕ → ℕ → Outcome ℕ
alu_rv64c OpCode.c_mv a b a32 b32 = ok b
alu_rv64c OpCode.c_add a b a32 b32 = ok (add 64 a b)
alu_rv64c OpCode.c_addw a b a32 b32 = ok (sign_extend 64 32 (sext32 (add 32 a32 b32)))
alu_rv64c OpCode.c_sub a b a32 b32 = ok (sub 64 a b)
alu_rv64c OpCode.c_subw a b a32 b32 = ok (sign_extend 64 32 (sext32 (sub 32 a32 b32)))
alu_rv64c OpCode.c_and a b a32 b32 = ok (bit_and a b)
alu_rv64c OpCode.c_or a b a32 b32 = ok (bit_or a b)
alu_rv64c OpCode.c_xor a b a32 b32 = ok (bit_xor a b)
alu_rv64c _ _ _ _ _ = error

unfoldable pub alu_imm_rv64c : OpCode → ℕ → ℕ → ℕ → Outcome ℕ
alu_imm_rv64c OpCode.c_li a imm a32 = ok imm
alu_imm_rv64c OpCode.c_lui a imm a32 = ok imm
alu_imm_rv64c OpCode.c_addi a imm a32 = ok (add 64 a imm)
alu_imm_rv64c OpCode.c_addiw a imm a32 = ok (sign_extend 64 32 (u64 (sext32 a32 + imm)))
alu_imm_rv64c OpCode.c_andi a imm a32 = ok (bit_and a imm)
alu_imm_rv64c OpCode.c_srli a imm a32 = shift_right 64 a imm
alu_imm_rv64c OpCode.c_srai a imm a32 = shift_right_signed 64 a imm
alu_imm_rv64c OpCode.c_slli a imm a32 = shift_left 64 a imm
alu_imm_rv64c _ _ _ _ = error

unfoldable pub branch_rv64c : OpCode → ℕ → Outcome Bool
branch_rv64c OpCode.c_beqz a = ok (a == 0)
branch_rv64c OpCode.c_bnez a = ok (not (a == 0))
branch_rv64c _ _ = error
