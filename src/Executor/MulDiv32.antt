-- ===== src/Executor/MulDiv32.antt =====
-- src/rafi-emu/cpu/Executor.cpp: `ProcessRV32M`.
use rafi_emu.Common.{ℕ, ◌-◌, ◌*◌, ◌/◌, ◌%◌, ◌^◌, ◌==◌, ◌&&◌, if◌then◌else◌, Outcome, ok}
use rafi_emu.Word.{sext32}
use rafi_emu.Op.{Op, OpCode}
use rafi_emu.Executor.Arith.{mul, quotient, remainder}
use rafi_emu.Executor.Machine.{E, ◌>>=◌, ◌>>◌, lift, error, read_x32, write_x32, cancel_reservation}
use rafi_emu.Executor.Operands.{get_r}

unfoldable pub mul_div_rv32m : OpCode → ℕ → ℕ → Outcome ℕ
mul_div_rv32m OpCode.mul a b = ok (mul 32 a b)
mul_div_rv32m OpCode.mulh a b = ok (mul 64 (sext32 a) (sext32 b) / 2 ^ 32)
mul_div_rv32m OpCode.mulhsu a b = ok (mul 64 (sext32 a) b / 2 ^ 32)
mul_div_rv32m OpCode.mulhu a b = ok (a * b / 2 ^ 32)
mul_div_rv32m OpCode.div a b =
    if a == 2 ^ 31 && b == 2 ^ 32 - 1
    then ok (2 ^ 31)
    else if b == 0
    then ok (2 ^ 32 - 1)
    else ok (quotient 32 a b)
mul_div_rv32m OpCode.divu a b = if b == 0 then ok (2 ^ 32 - 1) else ok (a / b)
mul_div_rv32m OpCode.rem a b =
    if a == 2 ^ 31 && b == 2 ^ 32 - 1 then ok 0 else if b == 0 then ok a else ok (remainder 32 a b)
mul_div_rv32m OpCode.remu a b = if b == 0 then ok a else ok (a % b)
mul_div_rv32m _ _ _ = error

module _ {D : Type 0} where
  unfoldable pub process_rv32m : Op → E D (Unit {0})
  process_rv32m o = do
    cancel_reservation
    (rd, rs1, rs2) ← lift (get_r o.operand)
    src1 ← read_x32 rs1
    src2 ← read_x32 rs2
    dst ← lift (mul_div_rv32m o.op_code src1 src2)
    write_x32 rd dst
