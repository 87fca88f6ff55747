-- ===== src/Executor/KeepsRegisters.antt =====
-- src/rafi-emu/cpu/Executor.cpp: the register file over the RV32I and RV64I instructions
-- on registers.
use rafi_emu.Common.{ℕ, Bool}
use rafi_emu.Op.{Op, OpCode}
use rafi_emu.Executor.Keeps.{Keeps, step}
use rafi_emu.Executor.Rv32I.{
  process_rv32i_lui, process_rv32i_auipc, process_rv32i_jal, process_rv32i_jalr, jump_if32,
  process_rv32i_branch, process_rv32i_alu, process_rv32i_alu_imm, process_rv32i_shift,
  process_rv32i_shift_imm,
}
use rafi_emu.Executor.Rv64I.{
  process_rv64i_lui, process_rv64i_auipc, process_rv64i_jal, process_rv64i_jalr, jump_if64,
  process_rv64i_branch, process_rv64i_alu, process_rv64i_alu_imm, process_rv64i_shift,
  process_rv64i_shift_imm,
}
use rafi_emu.Executor.System32.{
  priv_rv32i, process_rv32i_priv, process_rv32i_fence, process_rv32i_csr, process_rv32i_csr_imm,
}
use rafi_emu.Executor.System64.{
  priv_rv64i, process_rv64i_priv, process_rv64i_fence, process_rv64i_csr, process_rv64i_csr_imm,
}

module _ {D : Type 0} where
  pub process_rv32i_lui-Keeps : (o : Op) → Keeps {D = D} (process_rv32i_lui o)
  unfolding process_rv32i_lui
  process_rv32i_lui-Keeps o = search (step) depth 30 fits 3000

  pub process_rv32i_auipc-Keeps : (o : Op) (v1 : ℕ) → Keeps {D = D} (process_rv32i_auipc o v1)
  unfolding process_rv32i_auipc
  process_rv32i_auipc-Keeps o v1 = search (step) depth 30 fits 3000

  pub process_rv32i_jal-Keeps : (o : Op) (v1 : ℕ) → Keeps {D = D} (process_rv32i_jal o v1)
  unfolding process_rv32i_jal
  process_rv32i_jal-Keeps o v1 = search (step) depth 30 fits 3000

  pub process_rv32i_jalr-Keeps : (o : Op) (v1 : ℕ) → Keeps {D = D} (process_rv32i_jalr o v1)
  unfolding process_rv32i_jalr
  process_rv32i_jalr-Keeps o v1 = search (step) depth 30 fits 3000

  pub jump_if32-Keeps : (b0 : Bool) (v1 : ℕ) (v2 : ℕ) → Keeps {D = D} (jump_if32 b0 v1 v2)
  unfolding jump_if32
  jump_if32-Keeps b0 v1 v2 = search (step) depth 30 fits 3000

  pub process_rv32i_branch-Keeps : (o : Op) (v1 : ℕ) → Keeps {D = D} (process_rv32i_branch o v1)
  unfolding process_rv32i_branch
  process_rv32i_branch-Keeps o v1 = search (step, jump_if32-Keeps) depth 30 fits 3000

  pub process_rv32i_alu-Keeps : (o : Op) → Keeps {D = D} (process_rv32i_alu o)
  unfolding process_rv32i_alu
  process_rv32i_alu-Keeps o = search (step) depth 30 fits 3000

  pub process_rv32i_alu_imm-Keeps : (o : Op) → Keeps {D = D} (process_rv32i_alu_imm o)
  unfolding process_rv32i_alu_imm
  process_rv32i_alu_imm-Keeps o = search (step) depth 30 fits 3000

  pub process_rv32i_shift-Keeps : (o : Op) → Keeps {D = D} (process_rv32i_shift o)
  unfolding process_rv32i_shift
  process_rv32i_shift-Keeps o = search (step) depth 30 fits 3000

  pub process_rv32i_shift_imm-Keeps : (o : Op) → Keeps {D = D} (process_rv32i_shift_imm o)
  unfolding process_rv32i_shift_imm
  process_rv32i_shift_imm-Keeps o = search (step) depth 30 fits 3000

  pub process_rv64i_lui-Keeps : (o : Op) → Keeps {D = D} (process_rv64i_lui o)
  unfolding process_rv64i_lui
  process_rv64i_lui-Keeps o = search (step) depth 30 fits 3000

  pub process_rv64i_auipc-Keeps : (o : Op) (v1 : ℕ) → Keeps {D = D} (process_rv64i_auipc o v1)
  unfolding process_rv64i_auipc
  process_rv64i_auipc-Keeps o v1 = search (step) depth 30 fits 3000

  pub process_rv64i_jal-Keeps : (o : Op) (v1 : ℕ) → Keeps {D = D} (process_rv64i_jal o v1)
  unfolding process_rv64i_jal
  process_rv64i_jal-Keeps o v1 = search (step) depth 30 fits 3000

  pub process_rv64i_jalr-Keeps : (o : Op) (v1 : ℕ) → Keeps {D = D} (process_rv64i_jalr o v1)
  unfolding process_rv64i_jalr
  process_rv64i_jalr-Keeps o v1 = search (step) depth 30 fits 3000

  pub jump_if64-Keeps : (b0 : Bool) (v1 : ℕ) (v2 : ℕ) → Keeps {D = D} (jump_if64 b0 v1 v2)
  unfolding jump_if64
  jump_if64-Keeps b0 v1 v2 = search (step) depth 30 fits 3000

  pub process_rv64i_branch-Keeps : (o : Op) (v1 : ℕ) → Keeps {D = D} (process_rv64i_branch o v1)
  unfolding process_rv64i_branch
  process_rv64i_branch-Keeps o v1 = search (step, jump_if64-Keeps) depth 30 fits 3000

  pub process_rv64i_alu-Keeps : (o : Op) → Keeps {D = D} (process_rv64i_alu o)
  unfolding process_rv64i_alu
  process_rv64i_alu-Keeps o = search (step) depth 30 fits 3000

  pub process_rv64i_alu_imm-Keeps : (o : Op) → Keeps {D = D} (process_rv64i_alu_imm o)
  unfolding process_rv64i_alu_imm
  process_rv64i_alu_imm-Keeps o = search (step) depth 30 fits 3000

  pub process_rv64i_shift-Keeps : (o : Op) → Keeps {D = D} (process_rv64i_shift o)
  unfolding process_rv64i_shift
  process_rv64i_shift-Keeps o = search (step) depth 30 fits 3000

  pub process_rv64i_shift_imm-Keeps : (o : Op) → Keeps {D = D} (process_rv64i_shift_imm o)
  unfolding process_rv64i_shift_imm
  process_rv64i_shift_imm-Keeps o = search (step) depth 30 fits 3000

  pub priv_rv32i-Keeps : (c0 : OpCode) → Keeps {D = D} (priv_rv32i c0)
  unfolding priv_rv32i
  priv_rv32i-Keeps OpCode.ecall = search (step) depth 30 fits 3000
  priv_rv32i-Keeps _ = search (step) depth 30 fits 3000

  pub process_rv32i_priv-Keeps : (o : Op) → Keeps {D = D} (process_rv32i_priv o)
  unfolding process_rv32i_priv
  process_rv32i_priv-Keeps o = search (step, priv_rv32i-Keeps) depth 30 fits 3000

  pub process_rv32i_fence-Keeps : Keeps {D = D} process_rv32i_fence
  unfolding process_rv32i_fence
  process_rv32i_fence-Keeps = search (step) depth 30 fits 3000

  pub process_rv32i_csr-Keeps : (o : Op) → Keeps {D = D} (process_rv32i_csr o)
  unfolding process_rv32i_csr
  process_rv32i_csr-Keeps o = search (step) depth 30 fits 3000

  pub process_rv32i_csr_imm-Keeps : (o : Op) → Keeps {D = D} (process_rv32i_csr_imm o)
  unfolding process_rv32i_csr_imm
  process_rv32i_csr_imm-Keeps o = search (step) depth 30 fits 3000

  pub priv_rv64i-Keeps : (c0 : OpCode) → Keeps {D = D} (priv_rv64i c0)
  unfolding priv_rv64i
  priv_rv64i-Keeps OpCode.ecall = search (step) depth 30 fits 3000
  priv_rv64i-Keeps _ = search (step) depth 30 fits 3000

  pub process_rv64i_priv-Keeps : (o : Op) → Keeps {D = D} (process_rv64i_priv o)
  unfolding process_rv64i_priv
  process_rv64i_priv-Keeps o = search (step, priv_rv64i-Keeps) depth 30 fits 3000

  pub process_rv64i_fence-Keeps : Keeps {D = D} process_rv64i_fence
  unfolding process_rv64i_fence
  process_rv64i_fence-Keeps = search (step) depth 30 fits 3000

  pub process_rv64i_csr-Keeps : (o : Op) → Keeps {D = D} (process_rv64i_csr o)
  unfolding process_rv64i_csr
  process_rv64i_csr-Keeps o = search (step) depth 30 fits 3000

  pub process_rv64i_csr_imm-Keeps : (o : Op) → Keeps {D = D} (process_rv64i_csr_imm o)
  unfolding process_rv64i_csr_imm
  process_rv64i_csr_imm-Keeps o = search (step) depth 30 fits 3000
