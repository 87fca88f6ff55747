-- ===== src/Executor/Access64.antt =====
-- src/rafi-emu/cpu/Executor.cpp: the RV64I loads and stores.
use rafi_emu.Common.{ℕ, ◌+◌, ◌%◌, ◌^◌}
use rafi_emu.Word.{u64, sign_extend, zero_extend}
use rafi_emu.Op.{Op, OpCode}
use rafi_emu.Bus.{Io}
use rafi_emu.Executor.Machine.{E, pure, ◌>>=◌, lift, error, read_x64, write_x64, load, store}
use rafi_emu.Executor.Operands.{get_i, get_s}

module _ {D : Type 0} ⦃io : Io D⦄ where
  unfoldable pub load_rv64i : OpCode → ℕ → E D ℕ
  load_rv64i OpCode.lb a = do v ← load 1 a; pure (sign_extend 64 8 v)
  load_rv64i OpCode.lh a = do v ← load 2 a; pure (sign_extend 64 16 v)
  load_rv64i OpCode.lw a = do v ← load 4 a; pure (sign_extend 64 32 v)
  load_rv64i OpCode.ld a = do v ← load 8 a; pure (sign_extend 64 64 v)
  load_rv64i OpCode.lbu a = do v ← load 1 a; pure (zero_extend 8 v)
  load_rv64i OpCode.lhu a = do v ← load 2 a; pure (zero_extend 16 v)
  load_rv64i OpCode.lwu a = do v ← load 4 a; pure (zero_extend 32 v)
  load_rv64i _ a = lift error

  unfoldable pub process_rv64i_load : Op → E D (Unit {0})
  process_rv64i_load o = do
    (imm, rd, rs1) ← lift (get_i o.operand)
    src ← read_x64 rs1
    value ← load_rv64i o.op_code (u64 (src + imm))
    write_x64 rd value

  unfoldable pub store_rv64i : OpCode → ℕ → ℕ → E D (Unit {0})
  store_rv64i OpCode.sb a v = store 1 a (v % 2 ^ 8)
  store_rv64i OpCode.sh a v = store 2 a (v % 2 ^ 16)
  store_rv64i OpCode.sw a v = store 4 a (v % 2 ^ 32)
  store_rv64i OpCode.sd a v = store 8 a (v % 2 ^ 64)
  store_rv64i _ a v = lift error

  unfoldable pub process_rv64i_store : Op → E D (Unit {0})
  process_rv64i_store o = do
    (imm, rs1, rs2) ← lift (get_s o.operand)
    src ← read_x64 rs1
    value ← read_x64 rs2
    store_rv64i o.op_code (u64 (src + imm)) value
