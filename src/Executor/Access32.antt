-- ===== src/Executor/Access32.antt =====
-- src/rafi-emu/cpu/Executor.cpp: the RV32I loads and stores.
use rafi_emu.Common.{ℕ, ◌+◌, ◌%◌, ◌^◌}
use rafi_emu.Word.{u64}
use rafi_emu.Op.{Op, OpCode}
use rafi_emu.Bus.{Io}
use rafi_emu.Executor.Arith.{convert}
use rafi_emu.Executor.Machine.{
  E, pure, ◌>>=◌, ◌>>◌, lift, error, read_x32, write_x32, cancel_reservation, load, store,
}
use rafi_emu.Executor.Operands.{get_i, get_s}

module _ {D : Type 0} ⦃io : Io D⦄ where
  unfoldable pub load_rv32i : OpCode → ℕ → E D ℕ
  load_rv32i OpCode.lb a = do v ← load 1 a; pure (convert 32 8 v)
  load_rv32i OpCode.lh a = do v ← load 2 a; pure (convert 32 16 v)
  load_rv32i OpCode.lw a = load 4 a
  load_rv32i OpCode.lbu a = load 1 a
  load_rv32i OpCode.lhu a = load 2 a
  load_rv32i _ a = lift error

  unfoldable pub process_rv32i_load : Op → E D (Unit {0})
  process_rv32i_load o = do
    cancel_reservation
    (imm, rd, rs1) ← lift (get_i o.operand)
    src ← read_x32 rs1
    value ← load_rv32i o.op_code (u64 (src + imm))
    write_x32 rd value

  unfoldable pub store_rv32i : OpCode → ℕ → ℕ → E D (Unit {0})
  store_rv32i OpCode.sb a v = store 1 a (v % 2 ^ 8)
  store_rv32i OpCode.sh a v = store 2 a (v % 2 ^ 16)
  store_rv32i OpCode.sw a v = store 4 a (v % 2 ^ 32)
  store_rv32i _ a v = lift error

  unfoldable pub process_rv32i_store : Op → E D (Unit {0})
  process_rv32i_store o = do
    cancel_reservation
    (imm, rs1, rs2) ← lift (get_s o.operand)
    src ← read_x32 rs1
    value ← read_x32 rs2
    store_rv32i o.op_code (u64 (src + imm)) value
