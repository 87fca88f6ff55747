-- ===== src/Executor/Compressed32.antt =====
-- src/rafi-emu/cpu/Executor.cpp: `ProcessRV32C`.
use rafi_emu.Common.{ℕ}
use rafi_emu.Op.{Op, OpCode}
use rafi_emu.Bus.{Io}
use rafi_emu.Executor.Machine.{E, pure, ◌>>◌, lift, error, cancel_reservation}
use rafi_emu.Executor.Rv32C.{
  process_rv32c_alu, process_rv32c_alu_imm, process_rv32c_branch, process_rv32c_addi4spn,
  process_rv32c_addi16sp, process_rv32c_j, process_rv32c_jal, process_rv32c_jr, process_rv32c_jalr,
}
use rafi_emu.Executor.AccessC32.{
  process_rv32c_fld, process_rv32c_fldsp, process_rv32c_flw, process_rv32c_flwsp, process_rv32c_lw,
  process_rv32c_lwsp, process_rv32c_fsd, process_rv32c_fsdsp, process_rv32c_fsw,
  process_rv32c_fswsp, process_rv32c_sw, process_rv32c_swsp,
}

module _ {D : Type 0} ⦃io : Io D⦄ where
  unfoldable pub process_rv32c_code : OpCode → Op → ℕ → E D (Unit {0})
  process_rv32c_code OpCode.c_nop o pc = pure tt
  process_rv32c_code OpCode.c_mv o pc = process_rv32c_alu o
  process_rv32c_code OpCode.c_add o pc = process_rv32c_alu o
  process_rv32c_code OpCode.c_sub o pc = process_rv32c_alu o
  process_rv32c_code OpCode.c_and o pc = process_rv32c_alu o
  process_rv32c_code OpCode.c_or o pc = process_rv32c_alu o
  process_rv32c_code OpCode.c_xor o pc = process_rv32c_alu o
  process_rv32c_code OpCode.c_li o pc = process_rv32c_alu_imm o
  process_rv32c_code OpCode.c_lui o pc = process_rv32c_alu_imm o
  process_rv32c_code OpCode.c_addi o pc = process_rv32c_alu_imm o
  process_rv32c_code OpCode.c_andi o pc = process_rv32c_alu_imm o
  process_rv32c_code OpCode.c_srli o pc = process_rv32c_alu_imm o
  process_rv32c_code OpCode.c_srai o pc = process_rv32c_alu_imm o
  process_rv32c_code OpCode.c_slli o pc = process_rv32c_alu_imm o
  process_rv32c_code OpCode.c_beqz o pc = process_rv32c_branch o pc
  process_rv32c_code OpCode.c_bnez o pc = process_rv32c_branch o pc
  process_rv32c_code OpCode.c_addi4spn o pc = process_rv32c_addi4spn o
  process_rv32c_code OpCode.c_addi16sp o pc = process_rv32c_addi16sp o
  process_rv32c_code OpCode.c_j o pc = process_rv32c_j o pc
  process_rv32c_code OpCode.c_jal o pc = process_rv32c_jal o pc
  process_rv32c_code OpCode.c_jr o pc = process_rv32c_jr o pc
  process_rv32c_code OpCode.c_jalr o pc = process_rv32c_jalr o pc
  process_rv32c_code OpCode.c_fld o pc = process_rv32c_fld o
  process_rv32c_code OpCode.c_fldsp o pc = process_rv32c_fldsp o
  process_rv32c_code OpCode.c_flw o pc = process_rv32c_flw o
  process_rv32c_code OpCode.c_flwsp o pc = process_rv32c_flwsp o
  process_rv32c_code OpCode.c_lw o pc = process_rv32c_lw o
  process_rv32c_code OpCode.c_lwsp o pc = process_rv32c_lwsp o
  process_rv32c_code OpCode.c_fsd o pc = process_rv32c_fsd o
  process_rv32c_code OpCode.c_fsdsp o pc = process_rv32c_fsdsp o
  process_rv32c_code OpCode.c_fsw o pc = process_rv32c_fsw o
  process_rv32c_code OpCode.c_fswsp o pc = process_rv32c_fswsp o
  process_rv32c_code OpCode.c_sw o pc = process_rv32c_sw o
  process_rv32c_code OpCode.c_swsp o pc = process_rv32c_swsp o
  process_rv32c_code _ o pc = lift error

  unfoldable pub process_rv32c : Op → ℕ → E D (Unit {0})
  process_rv32c o pc = do cancel_reservation; process_rv32c_code o.op_code o pc
