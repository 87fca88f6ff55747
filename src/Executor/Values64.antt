-- ===== src/Executor/Values64.antt =====
-- src/rafi-emu/cpu/Executor.cpp: the values that the RV64I instructions compute.
use Prim.Native.Nat.{bit_xor}
use rafi_emu.Common.{ℕ, bit_and, bit_or, Bool, ltb, ◌==◌, not, Outcome, ok}
use rafi_emu.Word.{u32, sext32, sign_extend}
use rafi_emu.Op.{OpCode}
use rafi_emu.Executor.Arith.{
  add, sub, bit_not, of_bool, less, shift_left, shift_right, shift_right_signed,
}
use rafi_emu.Executor.Machine.{error}
use rafi_emu.Common as C

unfoldable pub alu_rv64i : OpCode → ℕ → ℕ → ℕ → ℕ → Outcome ℕ
alu_rv64i OpCode.add a b a32 b32 = ok (add 64 a b)
alu_rv64i OpCode.addw a b a32 b32 = ok (sign_extend 64 32 (sext32 (add 32 a32 b32)))
alu_rv64i OpCode.sub a b a32 b32 = ok (sub 64 a b)
alu_rv64i OpCode.subw a b a32 b32 = ok (sign_extend 64 32 (sext32 (sub 32 a32 b32)))
alu_rv64i OpCode.slt a b a32 b32 = ok (of_bool (less 64 a b))
alu_rv64i OpCode.sltu a b a32 b32 = ok (of_bool (ltb a b))
alu_rv64i OpCode.xor_ a b a32 b32 = ok (bit_xor a b)
alu_rv64i OpCode.or_ a b a32 b32 = ok (bit_or a b)
alu_rv64i OpCode.and_ a b a32 b32 = ok (bit_and a b)
alu_rv64i _ _ _ _ _ = error

unfoldable pub alu_imm_rv64i : OpCode → ℕ → ℕ → ℕ → Outcome ℕ
alu_imm_rv64i OpCode.addi a imm a32 = ok (add 64 a imm)
alu_imm_rv64i OpCode.addiw a imm a32 = ok (sign_extend 64 32 (sext32 (add 32 a32 (u32 imm))))
alu_imm_rv64i OpCode.slti a imm a32 = ok (of_bool (less 64 a imm))
alu_imm_rv64i OpCode.sltiu a imm a32 = ok (of_bool (ltb a imm))
alu_imm_rv64i OpCode.xori a imm a32 = ok (bit_xor a imm)
alu_imm_rv64i OpCode.ori a imm a32 = ok (bit_or a imm)
alu_imm_rv64i OpCode.andi a imm a32 = ok (bit_and a imm)
alu_imm_rv64i _ _ _ _ = error

-- `SignExtend<int64_t>(32, value)` of an `int32_t`, and of a `uint32_t`.
abbrev extend_word : Outcome ℕ → Outcome ℕ
extend_word o = C.◌>>=◌ o (λ v. ok (sign_extend 64 32 (sext32 v)))

abbrev extend_uword : Outcome ℕ → Outcome ℕ
extend_uword o = C.◌>>=◌ o (λ v. ok (sign_extend 64 32 v))

unfoldable pub shift_rv64i : OpCode → ℕ → ℕ → ℕ → Outcome ℕ
shift_rv64i OpCode.sll a a32 n = shift_left 64 a n
shift_rv64i OpCode.sllw a a32 n = extend_word (shift_left 32 a32 n)
shift_rv64i OpCode.srl a a32 n = shift_right 64 a n
shift_rv64i OpCode.srlw a a32 n = extend_uword (shift_right 32 a32 n)
shift_rv64i OpCode.sra a a32 n = shift_right_signed 64 a n
shift_rv64i OpCode.sraw a a32 n = extend_word (shift_right_signed 32 a32 n)
shift_rv64i _ _ _ _ = error

unfoldable pub shift_imm_rv64i : OpCode → ℕ → ℕ → ℕ → Outcome ℕ
shift_imm_rv64i OpCode.slli a a32 n = shift_left 64 a n
shift_imm_rv64i OpCode.slliw a a32 n = extend_word (shift_left 32 a32 n)
shift_imm_rv64i OpCode.srli a a32 n = shift_right 64 a n
shift_imm_rv64i OpCode.srliw a a32 n = extend_uword (shift_right 32 a32 n)
shift_imm_rv64i OpCode.srai a a32 n = shift_right_signed 64 a n
shift_imm_rv64i OpCode.sraiw a a32 n = extend_word (shift_right_signed 32 a32 n)
shift_imm_rv64i _ _ _ _ = error

unfoldable pub branch_rv64i : OpCode → ℕ → ℕ → Outcome Bool
branch_rv64i OpCode.beq a b = ok (a == b)
branch_rv64i OpCode.bne a b = ok (not (a == b))
branch_rv64i OpCode.blt a b = ok (less 64 a b)
branch_rv64i OpCode.bge a b = ok (not (less 64 a b))
branch_rv64i OpCode.bltu a b = ok (ltb a b)
branch_rv64i OpCode.bgeu a b = ok (not (ltb a b))
branch_rv64i _ _ _ = error

unfoldable pub csr_rv64i : OpCode → ℕ → ℕ → Outcome ℕ
csr_rv64i OpCode.csrrw c s = ok s
csr_rv64i OpCode.csrrs c s = ok (bit_or c s)
csr_rv64i OpCode.csrrc c s = ok (bit_and c (bit_not 64 s))
csr_rv64i _ _ _ = error

unfoldable pub csr_imm_rv64i : OpCode → ℕ → ℕ → Outcome ℕ
csr_imm_rv64i OpCode.csrrwi c s = ok s
csr_imm_rv64i OpCode.csrrsi c s = ok (bit_or c s)
csr_imm_rv64i OpCode.csrrci c s = ok (bit_and c (bit_not 64 s))
csr_imm_rv64i _ _ _ = error
