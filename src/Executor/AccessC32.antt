-- ===== src/Executor/AccessC32.antt =====
-- src/rafi-emu/cpu/Executor.cpp: the RV32C loads and stores.
use rafi_emu.Common.{◌+◌}
use rafi_emu.Word.{u64}
use rafi_emu.Op.{Op}
use rafi_emu.Bus.{Io}
use rafi_emu.Executor.Machine.{
  E, ◌>>=◌, ◌>>◌, lift, read_x32, write_x32, read_f32, read_f64, write_f32, write_f64,
  cancel_reservation, load, store,
}
use rafi_emu.Executor.Operands.{get_ci, get_css, get_cl, get_cs}

module _ {D : Type 0} ⦃io : Io D⦄ where
  unfoldable pub process_rv32c_fld : Op → E D (Unit {0})
  process_rv32c_fld o = do
    (imm, rd, rs1) ← lift (get_cl o.operand)
    src ← read_x32 rs1
    value ← load 8 (u64 (src + imm))
    write_f64 rd value
    cancel_reservation

  unfoldable pub process_rv32c_fldsp : Op → E D (Unit {0})
  process_rv32c_fldsp o = do
    (imm, rd, _) ← lift (get_ci o.operand)
    src ← read_x32 2
    value ← load 8 (u64 (src + imm))
    write_f64 rd value
    cancel_reservation

  unfoldable pub process_rv32c_flw : Op → E D (Unit {0})
  process_rv32c_flw o = do
    (imm, rd, rs1) ← lift (get_cl o.operand)
    src ← read_x32 rs1
    value ← load 4 (u64 (src + imm))
    write_f32 rd value
    cancel_reservation

  unfoldable pub process_rv32c_flwsp : Op → E D (Unit {0})
  process_rv32c_flwsp o = do
    (imm, rd, _) ← lift (get_ci o.operand)
    src ← read_x32 2
    value ← load 4 (u64 (src + imm))
    write_f32 rd value
    cancel_reservation

  unfoldable pub process_rv32c_lw : Op → E D (Unit {0})
  process_rv32c_lw o = do
    (imm, rd, rs1) ← lift (get_cl o.operand)
    src ← read_x32 rs1
    value ← load 4 (u64 (src + imm))
    write_x32 rd value
    cancel_reservation

  unfoldable pub process_rv32c_lwsp : Op → E D (Unit {0})
  process_rv32c_lwsp o = do
    (imm, rd, _) ← lift (get_ci o.operand)
    src ← read_x32 2
    value ← load 4 (u64 (src + imm))
    write_x32 rd value
    cancel_reservation

  unfoldable pub process_rv32c_fsd : Op → E D (Unit {0})
  process_rv32c_fsd o = do
    (imm, rs1, rs2) ← lift (get_cs o.operand)
    src ← read_x32 rs1
    value ← read_f64 rs2
    store 8 (u64 (src + imm)) value
    cancel_reservation

  unfoldable pub process_rv32c_fsdsp : Op → E D (Unit {0})
  process_rv32c_fsdsp o = do
    (imm, rs2) ← lift (get_css o.operand)
    src ← read_x32 2
    value ← read_f64 rs2
    store 8 (u64 (src + imm)) value
    cancel_reservation

  unfoldable pub process_rv32c_fsw : Op → E D (Unit {0})
  process_rv32c_fsw o = do
    (imm, rs1, rs2) ← lift (get_cs o.operand)
    src ← read_x32 rs1
    value ← read_f32 rs2
    store 4 (u64 (src + imm)) value
    cancel_reservation

  unfoldable pub process_rv32c_fswsp : Op → E D (Unit {0})
  process_rv32c_fswsp o = do
    (imm, rs2) ← lift (get_css o.operand)
    src ← read_x32 2
    value ← read_f32 rs2
    store 4 (u64 (src + imm)) value
    cancel_reservation

  unfoldable pub process_rv32c_sw : Op → E D (Unit {0})
  process_rv32c_sw o = do
    (imm, rs1, rs2) ← lift (get_cs o.operand)
    src ← read_x32 rs1
    value ← read_x32 rs2
    store 4 (u64 (src + imm)) value
    cancel_reservation

  unfoldable pub process_rv32c_swsp : Op → E D (Unit {0})
  process_rv32c_swsp o = do
    (imm, rs2) ← lift (get_css o.operand)
    src ← read_x32 2
    value ← read_x32 rs2
    store 4 (u64 (src + imm)) value
    cancel_reservation
