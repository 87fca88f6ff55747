-- ===== src/Executor/System32.antt =====
-- src/rafi-emu/cpu/Executor.cpp: the RV32I instructions on control registers, the returns from traps and fences.
use rafi_emu.Common.{}
use rafi_emu.Op.{Op, OpCode}
use rafi_emu.Executor.Machine.{
  E, pure, ◌>>=◌, ◌>>◌, lift, error, read_x32, write_x32, cancel_reservation, read_csr32,
  write_csr32, trap_return,
}
use rafi_emu.Executor.Operands.{get_csr_operand, get_csr_imm}
use rafi_emu.RvTypes.{machine, supervisor, user}
use rafi_emu.Executor.Values32.{csr_rv32i, csr_imm_rv32i}

module _ {D : Type 0} where
  unfoldable pub priv_rv32i : OpCode → E D (Unit {0})
  priv_rv32i OpCode.ecall = pure tt
  priv_rv32i OpCode.ebreak = pure tt
  priv_rv32i OpCode.mret = trap_return machine
  priv_rv32i OpCode.sret = trap_return supervisor
  priv_rv32i OpCode.uret = trap_return user
  priv_rv32i OpCode.wfi = pure tt
  priv_rv32i _ = lift error

  unfoldable pub process_rv32i_priv : Op → E D (Unit {0})
  process_rv32i_priv o = do cancel_reservation; priv_rv32i o.op_code

  unfoldable pub process_rv32i_fence : E D (Unit {0})
  process_rv32i_fence = cancel_reservation

  unfoldable pub process_rv32i_csr : Op → E D (Unit {0})
  process_rv32i_csr o = do
    (rd, rs1, csr) ← lift (get_csr_operand o.operand)
    src_csr ← read_csr32 csr
    src_int_reg ← read_x32 rs1
    value ← lift (csr_rv32i o.op_code src_csr src_int_reg)
    write_csr32 csr value
    write_x32 rd src_csr

  unfoldable pub process_rv32i_csr_imm : Op → E D (Unit {0})
  process_rv32i_csr_imm o = do
    (zimm, rd, csr) ← lift (get_csr_imm o.operand)
    src_csr ← read_csr32 csr
    value ← lift (csr_imm_rv32i o.op_code src_csr zimm)
    write_csr32 csr value
    write_x32 rd src_csr
