-- ===== src/Executor/Integer64.antt =====
-- src/rafi-emu/cpu/Executor.cpp: `ProcessRV64I`.
use rafi_emu.Common.{ℕ}
use rafi_emu.Op.{Op, OpCode}
use rafi_emu.Bus.{Io}
use rafi_emu.Executor.Machine.{E, lift, error}
use rafi_emu.Executor.Rv64I.{
  process_rv64i_lui, process_rv64i_auipc, process_rv64i_jal, process_rv64i_jalr,
  process_rv64i_branch, process_rv64i_alu, process_rv64i_alu_imm, process_rv64i_shift,
  process_rv64i_shift_imm,
}
use rafi_emu.Executor.System64.{
  process_rv64i_priv, process_rv64i_fence, process_rv64i_csr, process_rv64i_csr_imm,
}
use rafi_emu.Executor.Access64.{process_rv64i_load, process_rv64i_store}

module _ {D : Type 0} ⦃io : Io D⦄ where
  unfoldable pub process_rv64i_code : OpCode → Op → ℕ → E D (Unit {0})
  process_rv64i_code OpCode.lui o pc = process_rv64i_lui o
  process_rv64i_code OpCode.auipc o pc = process_rv64i_auipc o pc
  process_rv64i_code OpCode.jal o pc = process_rv64i_jal o pc
  process_rv64i_code OpCode.jalr o pc = process_rv64i_jalr o pc
  process_rv64i_code OpCode.beq o pc = process_rv64i_branch o pc
  process_rv64i_code OpCode.bne o pc = process_rv64i_branch o pc
  process_rv64i_code OpCode.blt o pc = process_rv64i_branch o pc
  process_rv64i_code OpCode.bge o pc = process_rv64i_branch o pc
  process_rv64i_code OpCode.bltu o pc = process_rv64i_branch o pc
  process_rv64i_code OpCode.bgeu o pc = process_rv64i_branch o pc
  process_rv64i_code OpCode.lb o pc = process_rv64i_load o
  process_rv64i_code OpCode.lh o pc = process_rv64i_load o
  process_rv64i_code OpCode.lw o pc = process_rv64i_load o
  process_rv64i_code OpCode.lbu o pc = process_rv64i_load o
  process_rv64i_code OpCode.lhu o pc = process_rv64i_load o
  process_rv64i_code OpCode.lwu o pc = process_rv64i_load o
  process_rv64i_code OpCode.ld o pc = process_rv64i_load o
  process_rv64i_code OpCode.sb o pc = process_rv64i_store o
  process_rv64i_code OpCode.sh o pc = process_rv64i_store o
  process_rv64i_code OpCode.sw o pc = process_rv64i_store o
  process_rv64i_code OpCode.sd o pc = process_rv64i_store o
  process_rv64i_code OpCode.addi o pc = process_rv64i_alu_imm o
  process_rv64i_code OpCode.slti o pc = process_rv64i_alu_imm o
  process_rv64i_code OpCode.sltiu o pc = process_rv64i_alu_imm o
  process_rv64i_code OpCode.xori o pc = process_rv64i_alu_imm o
  process_rv64i_code OpCode.ori o pc = process_rv64i_alu_imm o
  process_rv64i_code OpCode.andi o pc = process_rv64i_alu_imm o
  process_rv64i_code OpCode.addiw o pc = process_rv64i_alu_imm o
  process_rv64i_code OpCode.sll o pc = process_rv64i_shift o
  process_rv64i_code OpCode.srl o pc = process_rv64i_shift o
  process_rv64i_code OpCode.sra o pc = process_rv64i_shift o
  process_rv64i_code OpCode.sllw o pc = process_rv64i_shift o
  process_rv64i_code OpCode.srlw o pc = process_rv64i_shift o
  process_rv64i_code OpCode.sraw o pc = process_rv64i_shift o
  process_rv64i_code OpCode.slli o pc = process_rv64i_shift_imm o
  process_rv64i_code OpCode.srli o pc = process_rv64i_shift_imm o
  process_rv64i_code OpCode.srai o pc = process_rv64i_shift_imm o
  process_rv64i_code OpCode.slliw o pc = process_rv64i_shift_imm o
  process_rv64i_code OpCode.srliw o pc = process_rv64i_shift_imm o
  process_rv64i_code OpCode.sraiw o pc = process_rv64i_shift_imm o
  process_rv64i_code OpCode.add o pc = process_rv64i_alu o
  process_rv64i_code OpCode.sub o pc = process_rv64i_alu o
  process_rv64i_code OpCode.slt o pc = process_rv64i_alu o
  process_rv64i_code OpCode.sltu o pc = process_rv64i_alu o
  process_rv64i_code OpCode.xor_ o pc = process_rv64i_alu o
  process_rv64i_code OpCode.or_ o pc = process_rv64i_alu o
  process_rv64i_code OpCode.and_ o pc = process_rv64i_alu o
  process_rv64i_code OpCode.addw o pc = process_rv64i_alu o
  process_rv64i_code OpCode.subw o pc = process_rv64i_alu o
  process_rv64i_code OpCode.ecall o pc = process_rv64i_priv o
  process_rv64i_code OpCode.ebreak o pc = process_rv64i_priv o
  process_rv64i_code OpCode.mret o pc = process_rv64i_priv o
  process_rv64i_code OpCode.sret o pc = process_rv64i_priv o
  process_rv64i_code OpCode.uret o pc = process_rv64i_priv o
  process_rv64i_code OpCode.wfi o pc = process_rv64i_priv o
  process_rv64i_code OpCode.fence o pc = process_rv64i_fence
  process_rv64i_code OpCode.fence_i o pc = process_rv64i_fence
  process_rv64i_code OpCode.sfence_vma o pc = process_rv64i_fence
  process_rv64i_code OpCode.csrrw o pc = process_rv64i_csr o
  process_rv64i_code OpCode.csrrs o pc = process_rv64i_csr o
  process_rv64i_code OpCode.csrrc o pc = process_rv64i_csr o
  process_rv64i_code OpCode.csrrwi o pc = process_rv64i_csr_imm o
  process_rv64i_code OpCode.csrrsi o pc = process_rv64i_csr_imm o
  process_rv64i_code OpCode.csrrci o pc = process_rv64i_csr_imm o
  process_rv64i_code _ o pc = lift error

  unfoldable pub process_rv64i : Op → ℕ → E D (Unit {0})
  process_rv64i o pc = process_rv64i_code o.op_code o pc
