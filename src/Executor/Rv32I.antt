-- ===== src/Executor/Rv32I.antt =====
-- src/rafi-emu/cpu/Executor.cpp: the RV32I instructions on registers, and jumps.
use rafi_emu.Common.{ℕ, ◌+◌, ◌-◌, ◌^◌, bit_and, Bool, if◌then◌else◌}
use rafi_emu.Word.{u32, u64, sext32}
use rafi_emu.Op.{Op}
use rafi_emu.Executor.Arith.{is_negative}
use rafi_emu.Executor.Machine.{
  E, pure, ◌>>=◌, ◌>>◌, lift, read_x32, write_x32, cancel_reservation, set_pc,
}
use rafi_emu.Executor.Operands.{get_r, get_i, get_b, get_u, get_j, get_shift_imm}
use rafi_emu.Executor.Values32.{
  alu_rv32i, alu_imm_rv32i, shift_rv32i, shift_imm_rv32i, branch_rv32i,
}

module _ {D : Type 0} where
  unfoldable pub process_rv32i_lui : Op → E D (Unit {0})
  process_rv32i_lui o = do (imm, rd) ← lift (get_u o.operand); write_x32 rd (u32 imm)

  unfoldable pub process_rv32i_auipc : Op → ℕ → E D (Unit {0})
  process_rv32i_auipc o pc = do (imm, rd) ← lift (get_u o.operand); write_x32 rd (u32 (pc + imm))

  unfoldable pub process_rv32i_jal : Op → ℕ → E D (Unit {0})
  process_rv32i_jal o pc = do
    (imm, rd) ← lift (get_j o.operand)
    write_x32 rd (u32 (pc + 4))
    set_pc (u64 (pc + imm))

  -- `src` is widened to the 64 bits of the immediate first.
  unfoldable pub process_rv32i_jalr : Op → ℕ → E D (Unit {0})
  process_rv32i_jalr o pc = do
    (imm, rd, rs1) ← lift (get_i o.operand)
    src ← read_x32 rs1
    let address = bit_and (u64 (sext32 src + imm)) (2 ^ 64 - 2)
    write_x32 rd (u32 (pc + 4))
    set_pc address

  -- The jump of a branch: backwards, it also drops the reservation.
  unfoldable pub jump_if32 : Bool → ℕ → ℕ → E D (Unit {0})
  jump_if32 jump pc imm =
      if jump
      then (do set_pc (u64 (pc + imm)); if is_negative 64 imm then cancel_reservation else pure tt)
      else pure tt

  unfoldable pub process_rv32i_branch : Op → ℕ → E D (Unit {0})
  process_rv32i_branch o pc = do
    (imm, rs1, rs2) ← lift (get_b o.operand)
    src1 ← read_x32 rs1
    src2 ← read_x32 rs2
    jump ← lift (branch_rv32i o.op_code src1 src2)
    jump_if32 jump pc imm

  unfoldable pub process_rv32i_alu : Op → E D (Unit {0})
  process_rv32i_alu o = do
    (rd, rs1, rs2) ← lift (get_r o.operand)
    src1 ← read_x32 rs1
    src2 ← read_x32 rs2
    value ← lift (alu_rv32i o.op_code src1 src2)
    write_x32 rd value

  unfoldable pub process_rv32i_alu_imm : Op → E D (Unit {0})
  process_rv32i_alu_imm o = do
    (imm, rd, rs1) ← lift (get_i o.operand)
    src1 ← read_x32 rs1
    value ← lift (alu_imm_rv32i o.op_code src1 (u32 imm))
    write_x32 rd value

  unfoldable pub process_rv32i_shift : Op → E D (Unit {0})
  process_rv32i_shift o = do
    (rd, rs1, rs2) ← lift (get_r o.operand)
    src1 ← read_x32 rs1
    src2 ← read_x32 rs2
    value ← lift (shift_rv32i o.op_code src1 src2)
    write_x32 rd value

  unfoldable pub process_rv32i_shift_imm : Op → E D (Unit {0})
  process_rv32i_shift_imm o = do
    (rd, rs1, shamt) ← lift (get_shift_imm o.operand)
    src1 ← read_x32 rs1
    value ← lift (shift_imm_rv32i o.op_code src1 shamt)
    write_x32 rd value
