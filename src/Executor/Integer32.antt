-- ===== src/Executor/Integer32.antt =====
-- src/rafi-emu/cpu/Executor.cpp: `ProcessRV32I`.
use rafi_emu.Common.{ℕ}
use rafi_emu.Op.{Op, OpCode}
use rafi_emu.Bus.{Io}
use rafi_emu.Executor.Machine.{E, lift, error}
use rafi_emu.Executor.Rv32I.{
  process_rv32i_lui, process_rv32i_auipc, process_rv32i_jal, process_rv32i_jalr,
  process_rv32i_branch, process_rv32i_alu, process_rv32i_alu_imm, process_rv32i_shift,
  process_rv32i_shift_imm,
}
use rafi_emu.Executor.System32.{
  process_rv32i_priv, process_rv32i_fence, process_rv32i_csr, process_rv32i_csr_imm,
}
use rafi_emu.Executor.Access32.{process_rv32i_load, process_rv32i_store}

module _ {D : Type 0} ⦃io : Io D⦄ where
  unfoldable pub process_rv32i_code : OpCode → Op → ℕ → E D (Unit {0})
  process_rv32i_code OpCode.lui o pc = process_rv32i_lui o
  process_rv32i_code OpCode.auipc o pc = process_rv32i_auipc o pc
  process_rv32i_code OpCode.jal o pc = process_rv32i_jal o pc
  process_rv32i_code OpCode.jalr o pc = process_rv32i_jalr o pc
  process_rv32i_code OpCode.beq o pc = process_rv32i_branch o pc
  process_rv32i_code OpCode.bne o pc = process_rv32i_branch o pc
  process_rv32i_code OpCode.blt o pc = process_rv32i_branch o pc
  process_rv32i_code OpCode.bge o pc = process_rv32i_branch o pc
  process_rv32i_code OpCode.bltu o pc = process_rv32i_branch o pc
  process_rv32i_code OpCode.bgeu o pc = process_rv32i_branch o pc
  process_rv32i_code OpCode.lb o pc = process_rv32i_load o
  process_rv32i_code OpCode.lh o pc = process_rv32i_load o
  process_rv32i_code OpCode.lw o pc = process_rv32i_load o
  process_rv32i_code OpCode.lbu o pc = process_rv32i_load o
  process_rv32i_code OpCode.lhu o pc = process_rv32i_load o
  process_rv32i_code OpCode.sb o pc = process_rv32i_store o
  process_rv32i_code OpCode.sh o pc = process_rv32i_store o
  process_rv32i_code OpCode.sw o pc = process_rv32i_store o
  process_rv32i_code OpCode.addi o pc = process_rv32i_alu_imm o
  process_rv32i_code OpCode.slti o pc = process_rv32i_alu_imm o
  process_rv32i_code OpCode.sltiu o pc = process_rv32i_alu_imm o
  process_rv32i_code OpCode.xori o pc = process_rv32i_alu_imm o
  process_rv32i_code OpCode.ori o pc = process_rv32i_alu_imm o
  process_rv32i_code OpCode.andi o pc = process_rv32i_alu_imm o
  process_rv32i_code OpCode.sll o pc = process_rv32i_shift o
  process_rv32i_code OpCode.srl o pc = process_rv32i_shift o
  process_rv32i_code OpCode.sra o pc = process_rv32i_shift o
  process_rv32i_code OpCode.slli o pc = process_rv32i_shift_imm o
  process_rv32i_code OpCode.srli o pc = process_rv32i_shift_imm o
  process_rv32i_code OpCode.srai o pc = process_rv32i_shift_imm o
  process_rv32i_code OpCode.add o pc = process_rv32i_alu o
  process_rv32i_code OpCode.sub o pc = process_rv32i_alu o
  process_rv32i_code OpCode.slt o pc = process_rv32i_alu o
  process_rv32i_code OpCode.sltu o pc = process_rv32i_alu o
  process_rv32i_code OpCode.xor_ o pc = process_rv32i_alu o
  process_rv32i_code OpCode.or_ o pc = process_rv32i_alu o
  process_rv32i_code OpCode.and_ o pc = process_rv32i_alu o
  process_rv32i_code OpCode.ecall o pc = process_rv32i_priv o
  process_rv32i_code OpCode.ebreak o pc = process_rv32i_priv o
  process_rv32i_code OpCode.mret o pc = process_rv32i_priv o
  process_rv32i_code OpCode.sret o pc = process_rv32i_priv o
  process_rv32i_code OpCode.uret o pc = process_rv32i_priv o
  process_rv32i_code OpCode.wfi o pc = process_rv32i_priv o
  process_rv32i_code OpCode.fence o pc = process_rv32i_fence
  process_rv32i_code OpCode.fence_i o pc = process_rv32i_fence
  process_rv32i_code OpCode.sfence_vma o pc = process_rv32i_fence
  process_rv32i_code OpCode.csrrw o pc = process_rv32i_csr o
  process_rv32i_code OpCode.csrrs o pc = process_rv32i_csr o
  process_rv32i_code OpCode.csrrc o pc = process_rv32i_csr o
  process_rv32i_code OpCode.csrrwi o pc = process_rv32i_csr_imm o
  process_rv32i_code OpCode.csrrsi o pc = process_rv32i_csr_imm o
  process_rv32i_code OpCode.csrrci o pc = process_rv32i_csr_imm o
  process_rv32i_code _ o pc = lift error

  unfoldable pub process_rv32i : Op → ℕ → E D (Unit {0})
  process_rv32i o pc = process_rv32i_code o.op_code o pc
