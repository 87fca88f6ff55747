-- ===== src/Executor/KeepsInteger.antt =====
-- src/rafi-emu/cpu/Executor.cpp: the register file over the RV32I and RV64I instructions.
use rafi_emu.Common.{ℕ}
use rafi_emu.Bus.{Io}
use rafi_emu.Op.{Op, OpCode}
use rafi_emu.Executor.Keeps.{Keeps, step_io}
use rafi_emu.Executor.Access32.{load_rv32i, process_rv32i_load, store_rv32i, process_rv32i_store}
use rafi_emu.Executor.Access64.{load_rv64i, process_rv64i_load, store_rv64i, process_rv64i_store}
use rafi_emu.Executor.Integer32.{process_rv32i_code, process_rv32i}
use rafi_emu.Executor.Integer64.{process_rv64i_code, process_rv64i}
use rafi_emu.Executor.KeepsRegisters.{
  process_rv32i_alu-Keeps, process_rv32i_alu_imm-Keeps, process_rv32i_auipc-Keeps,
  process_rv32i_branch-Keeps, process_rv32i_csr-Keeps, process_rv32i_csr_imm-Keeps,
  process_rv32i_fence-Keeps, process_rv32i_jal-Keeps, process_rv32i_jalr-Keeps,
  process_rv32i_lui-Keeps, process_rv32i_priv-Keeps, process_rv32i_shift-Keeps,
  process_rv32i_shift_imm-Keeps, process_rv64i_alu-Keeps, process_rv64i_alu_imm-Keeps,
  process_rv64i_auipc-Keeps, process_rv64i_branch-Keeps, process_rv64i_csr-Keeps,
  process_rv64i_csr_imm-Keeps, process_rv64i_fence-Keeps, process_rv64i_jal-Keeps,
  process_rv64i_jalr-Keeps, process_rv64i_lui-Keeps, process_rv64i_priv-Keeps,
  process_rv64i_shift-Keeps, process_rv64i_shift_imm-Keeps,
}

module _ {D : Type 0} ⦃io : Io D⦄ where
  pub load_rv32i-Keeps : (c0 : OpCode) (v1 : ℕ) → Keeps {D = D} (load_rv32i c0 v1)
  unfolding load_rv32i
  load_rv32i-Keeps OpCode.lb v1 = search (step_io) depth 30 fits 3000
  load_rv32i-Keeps _ v1 = search (step_io) depth 30 fits 3000

  pub process_rv32i_load-Keeps : (o : Op) → Keeps {D = D} (process_rv32i_load o)
  unfolding process_rv32i_load
  process_rv32i_load-Keeps o = search (step_io, load_rv32i-Keeps) depth 30 fits 3000

  pub store_rv32i-Keeps : (c0 : OpCode) (v1 : ℕ) (v2 : ℕ) → Keeps {D = D} (store_rv32i c0 v1 v2)
  unfolding store_rv32i
  store_rv32i-Keeps OpCode.sb v1 v2 = search (step_io) depth 30 fits 3000
  store_rv32i-Keeps _ v1 v2 = search (step_io) depth 30 fits 3000

  pub process_rv32i_store-Keeps : (o : Op) → Keeps {D = D} (process_rv32i_store o)
  unfolding process_rv32i_store
  process_rv32i_store-Keeps o = search (step_io, store_rv32i-Keeps) depth 30 fits 3000

  pub load_rv64i-Keeps : (c0 : OpCode) (v1 : ℕ) → Keeps {D = D} (load_rv64i c0 v1)
  unfolding load_rv64i
  load_rv64i-Keeps OpCode.lb v1 = search (step_io) depth 30 fits 3000
  load_rv64i-Keeps _ v1 = search (step_io) depth 30 fits 3000

  pub process_rv64i_load-Keeps : (o : Op) → Keeps {D = D} (process_rv64i_load o)
  unfolding process_rv64i_load
  process_rv64i_load-Keeps o = search (step_io, load_rv64i-Keeps) depth 30 fits 3000

  pub store_rv64i-Keeps : (c0 : OpCode) (v1 : ℕ) (v2 : ℕ) → Keeps {D = D} (store_rv64i c0 v1 v2)
  unfolding store_rv64i
  store_rv64i-Keeps OpCode.sb v1 v2 = search (step_io) depth 30 fits 3000
  store_rv64i-Keeps _ v1 v2 = search (step_io) depth 30 fits 3000

  pub process_rv64i_store-Keeps : (o : Op) → Keeps {D = D} (process_rv64i_store o)
  unfolding process_rv64i_store
  process_rv64i_store-Keeps o = search (step_io, store_rv64i-Keeps) depth 30 fits 3000

  ruleset process_rv32i_code_parts = (
    process_rv32i_lui-Keeps, process_rv32i_auipc-Keeps, process_rv32i_jal-Keeps,
    process_rv32i_jalr-Keeps, process_rv32i_branch-Keeps, process_rv32i_alu-Keeps,
    process_rv32i_alu_imm-Keeps, process_rv32i_shift-Keeps, process_rv32i_shift_imm-Keeps,
    process_rv32i_priv-Keeps, process_rv32i_fence-Keeps, process_rv32i_csr-Keeps,
    process_rv32i_csr_imm-Keeps, process_rv32i_load-Keeps, process_rv32i_store-Keeps,
  )

  pub process_rv32i_code-Keeps :
      (c0 : OpCode) (o : Op) (v2 : ℕ) → Keeps {D = D} (process_rv32i_code c0 o v2)
  unfolding process_rv32i_code
  process_rv32i_code-Keeps OpCode.lui o v2 =
      search (step_io, process_rv32i_code_parts) depth 30 fits 3000
  process_rv32i_code-Keeps _ o v2 = search (step_io, process_rv32i_code_parts) depth 30 fits 3000

  pub process_rv32i-Keeps : (o : Op) (v1 : ℕ) → Keeps {D = D} (process_rv32i o v1)
  unfolding process_rv32i
  process_rv32i-Keeps o v1 = search (step_io, process_rv32i_code-Keeps) depth 30 fits 3000

  ruleset process_rv64i_code_parts = (
    process_rv64i_lui-Keeps, process_rv64i_auipc-Keeps, process_rv64i_jal-Keeps,
    process_rv64i_jalr-Keeps, process_rv64i_branch-Keeps, process_rv64i_alu-Keeps,
    process_rv64i_alu_imm-Keeps, process_rv64i_shift-Keeps, process_rv64i_shift_imm-Keeps,
    process_rv64i_priv-Keeps, process_rv64i_fence-Keeps, process_rv64i_csr-Keeps,
    process_rv64i_csr_imm-Keeps, process_rv64i_load-Keeps, process_rv64i_store-Keeps,
  )

  pub process_rv64i_code-Keeps :
      (c0 : OpCode) (o : Op) (v2 : ℕ) → Keeps {D = D} (process_rv64i_code c0 o v2)
  unfolding process_rv64i_code
  process_rv64i_code-Keeps OpCode.lui o v2 =
      search (step_io, process_rv64i_code_parts) depth 30 fits 3000
  process_rv64i_code-Keeps _ o v2 = search (step_io, process_rv64i_code_parts) depth 30 fits 3000

  pub process_rv64i-Keeps : (o : Op) (v1 : ℕ) → Keeps {D = D} (process_rv64i o v1)
  unfolding process_rv64i
  process_rv64i-Keeps o v1 = search (step_io, process_rv64i_code-Keeps) depth 30 fits 3000
