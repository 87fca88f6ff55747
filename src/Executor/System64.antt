-- ===== src/Executor/System64.antt =====
-- src/rafi-emu/cpu/Executor.cpp: the RV64I instructions on control registers, the returns from traps and fences.
use rafi_emu.Common.{}
use rafi_emu.Op.{Op, OpCode}
use rafi_emu.Executor.Machine.{
  E, pure, ◌>>=◌, ◌>>◌, lift, error, read_x64, write_x64, cancel_reservation, read_csr64,
  write_csr64, trap_return,
}
use rafi_emu.Executor.Operands.{get_csr_operand, get_csr_imm}
use rafi_emu.RvTypes.{machine, supervisor, user}
use rafi_emu.Executor.Values64.{csr_rv64i, csr_imm_rv64i}

module _ {D : Type 0} where
  unfoldable pub priv_rv64i : OpCode → E D (Unit {0})
  priv_rv64i OpCode.ecall = pure tt
  priv_rv64i OpCode.ebreak = pure tt
  priv_rv64i OpCode.mret = trap_return machine
  priv_rv64i OpCode.sret = trap_return supervisor
  priv_rv64i OpCode.uret = trap_return user
  priv_rv64i OpCode.wfi = pure tt
  priv_rv64i _ = lift error

  unfoldable pub process_rv64i_priv : Op → E D (Unit {0})
  process_rv64i_priv o = do cancel_reservation; priv_rv64i o.op_code

  unfoldable pub process_rv64i_fence : E D (Unit {0})
  process_rv64i_fence = cancel_reservation

  unfoldable pub process_rv64i_csr : Op → E D (Unit {0})
  process_rv64i_csr o = do
    cancel_reservation
    (rd, rs1, csr) ← lift (get_csr_operand o.operand)
    src_csr ← read_csr64 csr
    src_int_reg ← read_x64 rs1
    value ← lift (csr_rv64i o.op_code src_csr src_int_reg)
    write_csr64 csr value
    write_x64 rd src_csr

  unfoldable pub process_rv64i_csr_imm : Op → E D (Unit {0})
  process_rv64i_csr_imm o = do
    cancel_reservation
    (zimm, rd, csr) ← lift (get_csr_imm o.operand)
    src_csr ← read_csr64 csr
    value ← lift (csr_imm_rv64i o.op_code src_csr zimm)
    write_csr64 csr value
    write_x64 rd src_csr
