-- ===== src/Executor/Compressed64.antt =====
-- src/rafi-emu/cpu/Executor.cpp: `ProcessRV64C`.
use rafi_emu.Common.{ℕ}
use rafi_emu.Op.{Op, OpCode}
use rafi_emu.Bus.{Io}
use rafi_emu.Executor.Machine.{E, pure, lift, error}
use rafi_emu.Executor.Rv64C.{
  process_rv64c_alu, process_rv64c_alu_imm, process_rv64c_branch, process_rv64c_addi4spn,
  process_rv64c_addi16sp, process_rv64c_j, process_rv64c_jr, process_rv64c_jalr,
}
use rafi_emu.Executor.AccessC64.{
  process_rv64c_fld, process_rv64c_fldsp, process_rv64c_ld, process_rv64c_ldsp, process_rv64c_lw,
  process_rv64c_lwsp, process_rv64c_fsd, process_rv64c_fsdsp, process_rv64c_sd, process_rv64c_sdsp,
  process_rv64c_sw, process_rv64c_swsp,
}

module _ {D : Type 0} ⦃io : Io D⦄ where
  unfoldable pub process_rv64c_code : OpCode → Op → ℕ → E D (Unit {0})
  process_rv64c_code OpCode.c_nop o pc = pure tt
  process_rv64c_code OpCode.c_mv o pc = process_rv64c_alu o
  process_rv64c_code OpCode.c_add o pc = process_rv64c_alu o
  process_rv64c_code OpCode.c_sub o pc = process_rv64c_alu o
  process_rv64c_code OpCode.c_and o pc = process_rv64c_alu o
  process_rv64c_code OpCode.c_or o pc = process_rv64c_alu o
  process_rv64c_code OpCode.c_xor o pc = process_rv64c_alu o
  process_rv64c_code OpCode.c_addw o pc = process_rv64c_alu o
  process_rv64c_code OpCode.c_subw o pc = process_rv64c_alu o
  process_rv64c_code OpCode.c_li o pc = process_rv64c_alu_imm o
  process_rv64c_code OpCode.c_lui o pc = process_rv64c_alu_imm o
  process_rv64c_code OpCode.c_addi o pc = process_rv64c_alu_imm o
  process_rv64c_code OpCode.c_andi o pc = process_rv64c_alu_imm o
  process_rv64c_code OpCode.c_srli o pc = process_rv64c_alu_imm o
  process_rv64c_code OpCode.c_srai o pc = process_rv64c_alu_imm o
  process_rv64c_code OpCode.c_slli o pc = process_rv64c_alu_imm o
  process_rv64c_code OpCode.c_addiw o pc = process_rv64c_alu_imm o
  process_rv64c_code OpCode.c_beqz o pc = process_rv64c_branch o pc
  process_rv64c_code OpCode.c_bnez o pc = process_rv64c_branch o pc
  process_rv64c_code OpCode.c_addi4spn o pc = process_rv64c_addi4spn o
  process_rv64c_code OpCode.c_addi16sp o pc = process_rv64c_addi16sp o
  process_rv64c_code OpCode.c_j o pc = process_rv64c_j o pc
  process_rv64c_code OpCode.c_jr o pc = process_rv64c_jr o pc
  process_rv64c_code OpCode.c_jalr o pc = process_rv64c_jalr o pc
  process_rv64c_code OpCode.c_fld o pc = process_rv64c_fld o
  process_rv64c_code OpCode.c_fldsp o pc = process_rv64c_fldsp o
  process_rv64c_code OpCode.c_ld o pc = process_rv64c_ld o
  process_rv64c_code OpCode.c_ldsp o pc = process_rv64c_ldsp o
  process_rv64c_code OpCode.c_lw o pc = process_rv64c_lw o
  process_rv64c_code OpCode.c_lwsp o pc = process_rv64c_lwsp o
  process_rv64c_code OpCode.c_fsd o pc = process_rv64c_fsd o
  process_rv64c_code OpCode.c_fsdsp o pc = process_rv64c_fsdsp o
  process_rv64c_code OpCode.c_sd o pc = process_rv64c_sd o
  process_rv64c_code OpCode.c_sdsp o pc = process_rv64c_sdsp o
  process_rv64c_code OpCode.c_sw o pc = process_rv64c_sw o
  process_rv64c_code OpCode.c_swsp o pc = process_rv64c_swsp o
  process_rv64c_code _ o pc = lift error

  unfoldable pub process_rv64c : Op → ℕ → E D (Unit {0})
  process_rv64c o pc = process_rv64c_code o.op_code o pc
