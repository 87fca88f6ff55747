-- ===== src/Executor/Rv64C.antt =====
-- src/rafi-emu/cpu/Executor.cpp: the RV64C instructions on registers, and jumps.
use rafi_emu.Common.{ℕ, ◌+◌, ◌-◌, ◌^◌, bit_and, ltb, if◌then◌else◌, true}
use rafi_emu.Word.{u64}
use rafi_emu.Op.{Op}
use rafi_emu.Executor.Machine.{
  E, pure, ◌>>=◌, ◌>>◌, lift, read_x32, read_x64, write_x64, cancel_reservation, set_pc,
}
use rafi_emu.Executor.Operands.{get_cr, get_ci, get_ciw, get_cb, get_cj}
use rafi_emu.Executor.ValuesC64.{alu_rv64c, alu_imm_rv64c, branch_rv64c}
use rafi_emu.Executor.Rv64I.{jump_if64}

module _ {D : Type 0} where
  unfoldable pub process_rv64c_alu : Op → E D (Unit {0})
  process_rv64c_alu o = do
    (rd, rs1, rs2) ← lift (get_cr o.operand)
    src1 ← read_x64 rs1
    src2 ← read_x64 rs2
    src1_s32 ← read_x32 rs1
    src2_s32 ← read_x32 rs2
    value ← lift (alu_rv64c o.op_code src1 src2 src1_s32 src2_s32)
    write_x64 rd value

  unfoldable pub process_rv64c_alu_imm : Op → E D (Unit {0})
  process_rv64c_alu_imm o = do
    (imm, rd, rs1) ← lift (get_ci o.operand)
    src1 ← read_x64 rs1
    src1_s32 ← read_x32 rs1
    value ← lift (alu_imm_rv64c o.op_code src1 imm src1_s32)
    write_x64 rd value

  unfoldable pub process_rv64c_branch : Op → ℕ → E D (Unit {0})
  process_rv64c_branch o pc = do
    (imm, rs1) ← lift (get_cb o.operand)
    src1 ← read_x64 rs1
    jump ← lift (branch_rv64c o.op_code src1)
    jump_if64 jump pc imm

  unfoldable pub process_rv64c_addi4spn : Op → E D (Unit {0})
  process_rv64c_addi4spn o = do
    (imm, rd) ← lift (get_ciw o.operand)
    sp ← read_x64 2
    write_x64 rd (u64 (sp + imm))

  unfoldable pub process_rv64c_addi16sp : Op → E D (Unit {0})
  process_rv64c_addi16sp o = do
    (imm, rd, _) ← lift (get_ci o.operand)
    sp ← read_x64 2
    write_x64 rd (u64 (sp + imm))

  unfoldable pub process_rv64c_j : Op → ℕ → E D (Unit {0})
  process_rv64c_j o pc = do imm ← lift (get_cj o.operand); jump_if64 true pc imm

  unfoldable pub process_rv64c_jr : Op → ℕ → E D (Unit {0})
  process_rv64c_jr o pc = do
    (_, rs1, _) ← lift (get_cr o.operand)
    src ← read_x64 rs1
    let address = bit_and src (2 ^ 64 - 2)
    set_pc address
    if ltb address pc then cancel_reservation else pure tt

  unfoldable pub process_rv64c_jalr : Op → ℕ → E D (Unit {0})
  process_rv64c_jalr o pc = do
    (_, rs1, _) ← lift (get_cr o.operand)
    src ← read_x64 rs1
    let address = bit_and src (2 ^ 64 - 2)
    set_pc address
    write_x64 1 (u64 (pc + 2))
    if ltb address pc then cancel_reservation else pure tt
