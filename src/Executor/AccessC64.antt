-- ===== src/Executor/AccessC64.antt =====
-- src/rafi-emu/cpu/Executor.cpp: the RV64C loads and stores.
use rafi_emu.Common.{◌+◌}
use rafi_emu.Word.{u64, sign_extend}
use rafi_emu.Op.{Op}
use rafi_emu.Bus.{Io}
use rafi_emu.Executor.Machine.{
  E, ◌>>=◌, ◌>>◌, lift, read_x32, read_x64, write_x64, read_f64, write_f64, cancel_reservation,
  load, store,
}
use rafi_emu.Executor.Operands.{get_ci, get_css, get_cl, get_cs}

module _ {D : Type 0} ⦃io : Io D⦄ where
  unfoldable pub process_rv64c_fld : Op → E D (Unit {0})
  process_rv64c_fld o = do
    (imm, rd, rs1) ← lift (get_cl o.operand)
    src ← read_x64 rs1
    value ← load 8 (u64 (src + imm))
    write_f64 rd value
    cancel_reservation

  unfoldable pub process_rv64c_fldsp : Op → E D (Unit {0})
  process_rv64c_fldsp o = do
    (imm, rd, _) ← lift (get_ci o.operand)
    src ← read_x64 2
    value ← load 8 (u64 (src + imm))
    write_f64 rd value
    cancel_reservation

  unfoldable pub process_rv64c_ld : Op → E D (Unit {0})
  process_rv64c_ld o = do
    (imm, rd, rs1) ← lift (get_cl o.operand)
    src ← read_x64 rs1
    value ← load 8 (u64 (src + imm))
    write_x64 rd value
    cancel_reservation

  unfoldable pub process_rv64c_ldsp : Op → E D (Unit {0})
  process_rv64c_ldsp o = do
    (imm, rd, _) ← lift (get_ci o.operand)
    src ← read_x64 2
    value ← load 8 (u64 (src + imm))
    write_x64 rd value
    cancel_reservation

  unfoldable pub process_rv64c_lw : Op → E D (Unit {0})
  process_rv64c_lw o = do
    (imm, rd, rs1) ← lift (get_cl o.operand)
    src ← read_x64 rs1
    value ← load 4 (u64 (src + imm))
    write_x64 rd (sign_extend 64 32 value)
    cancel_reservation

  unfoldable pub process_rv64c_lwsp : Op → E D (Unit {0})
  process_rv64c_lwsp o = do
    (imm, rd, _) ← lift (get_ci o.operand)
    src ← read_x64 2
    value ← load 4 (u64 (src + imm))
    write_x64 rd (sign_extend 64 32 value)
    cancel_reservation

  unfoldable pub process_rv64c_fsd : Op → E D (Unit {0})
  process_rv64c_fsd o = do
    (imm, rs1, rs2) ← lift (get_cs o.operand)
    src ← read_x64 rs1
    value ← read_f64 rs2
    store 8 (u64 (src + imm)) value
    cancel_reservation

  unfoldable pub process_rv64c_fsdsp : Op → E D (Unit {0})
  process_rv64c_fsdsp o = do
    (imm, rs2) ← lift (get_css o.operand)
    src ← read_x64 2
    value ← read_f64 rs2
    store 8 (u64 (src + imm)) value
    cancel_reservation

  unfoldable pub process_rv64c_sd : Op → E D (Unit {0})
  process_rv64c_sd o = do
    (imm, rs1, rs2) ← lift (get_cs o.operand)
    src ← read_x64 rs1
    value ← read_x64 rs2
    store 8 (u64 (src + imm)) value
    cancel_reservation

  unfoldable pub process_rv64c_sdsp : Op → E D (Unit {0})
  process_rv64c_sdsp o = do
    (imm, rs2) ← lift (get_css o.operand)
    src ← read_x64 2
    value ← read_x64 rs2
    store 8 (u64 (src + imm)) value
    cancel_reservation

  unfoldable pub process_rv64c_sw : Op → E D (Unit {0})
  process_rv64c_sw o = do
    (imm, rs1, rs2) ← lift (get_cs o.operand)
    src ← read_x64 rs1
    value ← read_x32 rs2
    store 4 (u64 (src + imm)) value
    cancel_reservation

  unfoldable pub process_rv64c_swsp : Op → E D (Unit {0})
  process_rv64c_swsp o = do
    (imm, rs2) ← lift (get_css o.operand)
    src ← read_x64 2
    value ← read_x32 rs2
    store 4 (u64 (src + imm)) value
    cancel_reservation
