-- ===== src/Executor/KeepsChecks.antt =====
-- src/rafi-emu/cpu/Executor.cpp: the register file over the checks before and after an
-- instruction.
use rafi_emu.Common.{ℕ}
use rafi_emu.Bus.{Io}
use rafi_emu.Op.{Op, OpCode, OpClass}
use rafi_emu.Executor.Keeps.{Keeps, step, step_io}
use rafi_emu.Executor.Checks.{
  pre_check_trap_csr, pre_check_trap_csr_imm, pre_check_trap_wfi, pre_check_trap_fence,
  pre_check_trap_priv, is_fp_enabled, post_check_trap_for_ecall, post_check_trap_code,
  post_check_trap,
}
use rafi_emu.Executor.PreCheck.{
  pre_check_trap_rv32_load, pre_check_trap_rv32_load_reserved, pre_check_trap_rv32_store,
  pre_check_trap_rv32_store_conditional, pre_check_trap_rv32_atomic, pre_check_trap_rv64_load,
  pre_check_trap_rv64_load_reserved, pre_check_trap_rv64_store,
  pre_check_trap_rv64_store_conditional, pre_check_trap_rv64_atomic,
}
use rafi_emu.Executor.PreCheckAll.{
  pre_check_trap_code, pre_check_trap_fp, pre_check_trap_class, pre_check_trap,
}
use rafi_emu.Executor.KeepsChecksC.{pre_check_trap_rv32c-Keeps, pre_check_trap_rv64c-Keeps}

module _ {D : Type 0} where
  pub pre_check_trap_csr-Keeps :
      (o : Op) (v1 : ℕ) (v2 : ℕ) → Keeps {D = D} (pre_check_trap_csr o v1 v2)
  unfolding pre_check_trap_csr
  pre_check_trap_csr-Keeps o v1 v2 = search (step) depth 30 fits 3000

  pub pre_check_trap_csr_imm-Keeps :
      (o : Op) (v1 : ℕ) (v2 : ℕ) → Keeps {D = D} (pre_check_trap_csr_imm o v1 v2)
  unfolding pre_check_trap_csr_imm
  pre_check_trap_csr_imm-Keeps o v1 v2 = search (step) depth 30 fits 3000

  pub pre_check_trap_wfi-Keeps : (v0 : ℕ) (v1 : ℕ) → Keeps {D = D} (pre_check_trap_wfi v0 v1)
  unfolding pre_check_trap_wfi
  pre_check_trap_wfi-Keeps v0 v1 = search (step) depth 30 fits 3000

  pub pre_check_trap_fence-Keeps : (v0 : ℕ) (v1 : ℕ) → Keeps {D = D} (pre_check_trap_fence v0 v1)
  unfolding pre_check_trap_fence
  pre_check_trap_fence-Keeps v0 v1 = search (step) depth 30 fits 3000

  pub pre_check_trap_priv-Keeps :
      (o : Op) (v1 : ℕ) (v2 : ℕ) → Keeps {D = D} (pre_check_trap_priv o v1 v2)
  unfolding pre_check_trap_priv
  pre_check_trap_priv-Keeps o v1 v2 = search (step) depth 30 fits 3000

  pub is_fp_enabled-Keeps : Keeps {D = D} is_fp_enabled
  unfolding is_fp_enabled
  is_fp_enabled-Keeps = search (step) depth 30 fits 3000

  pub post_check_trap_for_ecall-Keeps : (v0 : ℕ) → Keeps {D = D} (post_check_trap_for_ecall v0)
  unfolding post_check_trap_for_ecall
  post_check_trap_for_ecall-Keeps v0 = search (step) depth 30 fits 3000

  pub post_check_trap_code-Keeps :
      (c0 : OpCode) (v1 : ℕ) → Keeps {D = D} (post_check_trap_code c0 v1)
  unfolding post_check_trap_code
  post_check_trap_code-Keeps OpCode.ecall v1 =
      search (step, post_check_trap_for_ecall-Keeps) depth 30 fits 3000
  post_check_trap_code-Keeps _ v1 =
      search (step, post_check_trap_for_ecall-Keeps) depth 30 fits 3000

  pub post_check_trap-Keeps : (o : Op) (v1 : ℕ) → Keeps {D = D} (post_check_trap o v1)
  unfolding post_check_trap
  post_check_trap-Keeps o v1 = search (step, post_check_trap_code-Keeps) depth 30 fits 3000

module _ {D : Type 0} ⦃io : Io D⦄ where
  pub pre_check_trap_rv32_load-Keeps :
      (o : Op) (v1 : ℕ) → Keeps {D = D} (pre_check_trap_rv32_load o v1)
  unfolding pre_check_trap_rv32_load
  pre_check_trap_rv32_load-Keeps o v1 = search (step_io) depth 30 fits 3000

  pub pre_check_trap_rv32_load_reserved-Keeps :
      (o : Op) (v1 : ℕ) → Keeps {D = D} (pre_check_trap_rv32_load_reserved o v1)
  unfolding pre_check_trap_rv32_load_reserved
  pre_check_trap_rv32_load_reserved-Keeps o v1 = search (step_io) depth 30 fits 3000

  pub pre_check_trap_rv32_store-Keeps :
      (o : Op) (v1 : ℕ) → Keeps {D = D} (pre_check_trap_rv32_store o v1)
  unfolding pre_check_trap_rv32_store
  pre_check_trap_rv32_store-Keeps o v1 = search (step_io) depth 30 fits 3000

  pub pre_check_trap_rv32_store_conditional-Keeps :
      (o : Op) (v1 : ℕ) → Keeps {D = D} (pre_check_trap_rv32_store_conditional o v1)
  unfolding pre_check_trap_rv32_store_conditional
  pre_check_trap_rv32_store_conditional-Keeps o v1 = search (step_io) depth 30 fits 3000

  pub pre_check_trap_rv32_atomic-Keeps :
      (o : Op) (v1 : ℕ) → Keeps {D = D} (pre_check_trap_rv32_atomic o v1)
  unfolding pre_check_trap_rv32_atomic
  pre_check_trap_rv32_atomic-Keeps o v1 = search (step_io) depth 30 fits 3000

  pub pre_check_trap_rv64_load-Keeps :
      (o : Op) (v1 : ℕ) → Keeps {D = D} (pre_check_trap_rv64_load o v1)
  unfolding pre_check_trap_rv64_load
  pre_check_trap_rv64_load-Keeps o v1 = search (step_io) depth 30 fits 3000

  pub pre_check_trap_rv64_load_reserved-Keeps :
      (o : Op) (v1 : ℕ) → Keeps {D = D} (pre_check_trap_rv64_load_reserved o v1)
  unfolding pre_check_trap_rv64_load_reserved
  pre_check_trap_rv64_load_reserved-Keeps o v1 = search (step_io) depth 30 fits 3000

  pub pre_check_trap_rv64_store-Keeps :
      (o : Op) (v1 : ℕ) → Keeps {D = D} (pre_check_trap_rv64_store o v1)
  unfolding pre_check_trap_rv64_store
  pre_check_trap_rv64_store-Keeps o v1 = search (step_io) depth 30 fits 3000

  pub pre_check_trap_rv64_store_conditional-Keeps :
      (o : Op) (v1 : ℕ) → Keeps {D = D} (pre_check_trap_rv64_store_conditional o v1)
  unfolding pre_check_trap_rv64_store_conditional
  pre_check_trap_rv64_store_conditional-Keeps o v1 = search (step_io) depth 30 fits 3000

  pub pre_check_trap_rv64_atomic-Keeps :
      (o : Op) (v1 : ℕ) → Keeps {D = D} (pre_check_trap_rv64_atomic o v1)
  unfolding pre_check_trap_rv64_atomic
  pre_check_trap_rv64_atomic-Keeps o v1 = search (step_io) depth 30 fits 3000

  ruleset pre_check_trap_code_parts = (
    pre_check_trap_csr-Keeps, pre_check_trap_csr_imm-Keeps, pre_check_trap_wfi-Keeps,
    pre_check_trap_fence-Keeps, pre_check_trap_priv-Keeps, pre_check_trap_rv32_load-Keeps,
    pre_check_trap_rv32_load_reserved-Keeps, pre_check_trap_rv32_store-Keeps,
    pre_check_trap_rv32_store_conditional-Keeps, pre_check_trap_rv32_atomic-Keeps,
    pre_check_trap_rv64_load-Keeps, pre_check_trap_rv64_load_reserved-Keeps,
    pre_check_trap_rv64_store-Keeps, pre_check_trap_rv64_store_conditional-Keeps,
    pre_check_trap_rv64_atomic-Keeps,
  )

  pub pre_check_trap_code-Keeps :
      (c0 : OpCode) (c1 : OpClass) (o : Op) (v3 : ℕ) (v4 : ℕ)
      → Keeps {D = D} (pre_check_trap_code c0 c1 o v3 v4)
  unfolding pre_check_trap_code
  pre_check_trap_code-Keeps OpCode.lb c1 o v3 v4 =
      search (step_io, pre_check_trap_code_parts) depth 30 fits 3000
  pre_check_trap_code-Keeps _ c1 o v3 v4 =
      search (step_io, pre_check_trap_code_parts) depth 30 fits 3000

  pub pre_check_trap_fp-Keeps :
      (o : Op) (v1 : ℕ) (v2 : ℕ) → Keeps {D = D} (pre_check_trap_fp o v1 v2)
  unfolding pre_check_trap_fp
  pre_check_trap_fp-Keeps o v1 v2 =
      search (step_io, is_fp_enabled-Keeps, pre_check_trap_code-Keeps) depth 30 fits 3000

  ruleset pre_check_trap_class_parts = (
    pre_check_trap_rv32c-Keeps, pre_check_trap_rv64c-Keeps, pre_check_trap_code-Keeps,
    pre_check_trap_fp-Keeps,
  )

  pub pre_check_trap_class-Keeps :
      (c0 : OpClass) (o : Op) (v2 : ℕ) (v3 : ℕ) → Keeps {D = D} (pre_check_trap_class c0 o v2 v3)
  unfolding pre_check_trap_class
  pre_check_trap_class-Keeps OpClass.rv32c o v2 v3 =
      search (step_io, pre_check_trap_class_parts) depth 30 fits 3000
  pre_check_trap_class-Keeps _ o v2 v3 =
      search (step_io, pre_check_trap_class_parts) depth 30 fits 3000

  pub pre_check_trap-Keeps : (o : Op) (v1 : ℕ) (v2 : ℕ) → Keeps {D = D} (pre_check_trap o v1 v2)
  unfolding pre_check_trap
  pre_check_trap-Keeps o v1 v2 = search (step_io, pre_check_trap_class-Keeps) depth 30 fits 3000
