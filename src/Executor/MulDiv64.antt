-- ===== src/Executor/MulDiv64.antt =====
-- src/rafi-emu/cpu/Executor.cpp: `ProcessRV64M`.
use rafi_emu.Common.{ℕ, ◌-◌, ◌/◌, ◌%◌, ◌^◌, ◌==◌, ◌&&◌, if◌then◌else◌, Outcome, ok, undefined}
use rafi_emu.Word.{sext32, sign_extend}
use rafi_emu.Op.{Op, OpCode}
use rafi_emu.Executor.Arith.{mul, quotient, remainder}
use rafi_emu.Executor.Machine.{
  E, Wide, ◌>>=◌, ◌>>◌, lift, error, read_x32, read_x64, write_x64, cancel_reservation,
}
use rafi_emu.Executor.Operands.{get_r}

-- `SignExtend<int64_t>(32, src1_s32 / src2_s32)`: a division by zero has no meaning.
abbrev divide_word : ℕ → ℕ → Outcome ℕ
divide_word a32 b32 =
    if b32 == 0 then undefined else ok (sign_extend 64 32 (sext32 (quotient 32 a32 b32)))

module _ ⦃wide : Wide⦄ where
  unfoldable pub mul_div_rv64m : OpCode → ℕ → ℕ → ℕ → ℕ → Outcome ℕ
  mul_div_rv64m OpCode.mul a b a32 b32 = ok (mul 64 a b)
  mul_div_rv64m OpCode.mulh a b a32 b32 = ok (wide.mulh a b)
  mul_div_rv64m OpCode.mulhsu a b a32 b32 = ok (wide.mulhsu a b)
  mul_div_rv64m OpCode.mulhu a b a32 b32 = ok (wide.mulhu a b)
  mul_div_rv64m OpCode.mulw a b a32 b32 = ok (sign_extend 64 32 (sext32 (mul 32 a32 b32)))
  mul_div_rv64m OpCode.div a b a32 b32 =
      if a == 2 ^ 63 && b == 2 ^ 64 - 1
      then ok (2 ^ 63)
      else if b == 0
      then ok (2 ^ 64 - 1)
      else ok (quotient 64 a b)
  mul_div_rv64m OpCode.divu a b a32 b32 = if b == 0 then ok (2 ^ 64 - 1) else ok (a / b)
  mul_div_rv64m OpCode.divuw a b a32 b32 =
      if b32 == 0 then ok (2 ^ 64 - 1) else ok (sign_extend 64 32 (a32 / b32))
  mul_div_rv64m OpCode.divw a b a32 b32 =
      if a32 == 2 ^ 31 && b32 == 2 ^ 32 - 1
      then ok (sign_extend 64 32 (2 ^ 31))
      else if b == 0
      then ok (2 ^ 64 - 1)
      else divide_word a32 b32
  mul_div_rv64m OpCode.rem a b a32 b32 =
      if a == 2 ^ 63 && b == 2 ^ 64 - 1
      then ok 0
      else if b == 0
      then ok a
      else ok (remainder 64 a b)
  mul_div_rv64m OpCode.remu a b a32 b32 = if b == 0 then ok a else ok (a % b)
  mul_div_rv64m OpCode.remuw a b a32 b32 =
      if b32 == 0 then ok (sign_extend 64 32 (sext32 (a32))) else ok (sign_extend 64 32 (a32 % b32))
  mul_div_rv64m OpCode.remw a b a32 b32 =
      if a32 == 2 ^ 31 && b32 == 2 ^ 32 - 1
      then ok 0
      else if b32 == 0
      then ok (sign_extend 64 32 (sext32 (a32)))
      else ok (sign_extend 64 32 (sext32 (remainder 32 a32 b32)))
  mul_div_rv64m _ _ _ _ _ = error

module _ {D : Type 0} ⦃wide : Wide⦄ where
  unfoldable pub process_rv64m : Op → E D (Unit {0})
  process_rv64m o = do
    cancel_reservation
    (rd, rs1, rs2) ← lift (get_r o.operand)
    src1_s32 ← read_x32 rs1
    src2_s32 ← read_x32 rs2
    src1_s64 ← read_x64 rs1
    src2_s64 ← read_x64 rs2
    value ← lift (mul_div_rv64m o.op_code src1_s64 src2_s64 src1_s32 src2_s32)
    write_x64 rd value
