-- ===== src/Executor/KeepsChecksC.antt =====
-- src/rafi-emu/cpu/Executor.cpp: the register file over the checks before a compressed
-- instruction.
use rafi_emu.Common.{ℕ}
use rafi_emu.Bus.{Io}
use rafi_emu.Op.{Op, OpCode}
use rafi_emu.Executor.Keeps.{Keeps, step_io}
use rafi_emu.Executor.PreCheckC32.{
  pre_check_trap_rv32c_fld, pre_check_trap_rv32c_fldsp, pre_check_trap_rv32c_flw,
  pre_check_trap_rv32c_flwsp, pre_check_trap_rv32c_lw, pre_check_trap_rv32c_lwsp,
  pre_check_trap_rv32c_fsd, pre_check_trap_rv32c_fsdsp, pre_check_trap_rv32c_fsw,
  pre_check_trap_rv32c_fswsp, pre_check_trap_rv32c_sw, pre_check_trap_rv32c_swsp,
  pre_check_trap_rv32c_code, pre_check_trap_rv32c,
}
use rafi_emu.Executor.PreCheckC64.{
  pre_check_trap_rv64c_fld, pre_check_trap_rv64c_fldsp, pre_check_trap_rv64c_ld,
  pre_check_trap_rv64c_ldsp, pre_check_trap_rv64c_lw, pre_check_trap_rv64c_lwsp,
  pre_check_trap_rv64c_fsd, pre_check_trap_rv64c_fsdsp, pre_check_trap_rv64c_sd,
  pre_check_trap_rv64c_sdsp, pre_check_trap_rv64c_sw, pre_check_trap_rv64c_swsp,
  pre_check_trap_rv64c_code, pre_check_trap_rv64c,
}

module _ {D : Type 0} ⦃io : Io D⦄ where
  pub pre_check_trap_rv32c_fld-Keeps :
      (o : Op) (v1 : ℕ) → Keeps {D = D} (pre_check_trap_rv32c_fld o v1)
  unfolding pre_check_trap_rv32c_fld
  pre_check_trap_rv32c_fld-Keeps o v1 = search (step_io) depth 30 fits 3000

  pub pre_check_trap_rv32c_fldsp-Keeps :
      (o : Op) (v1 : ℕ) → Keeps {D = D} (pre_check_trap_rv32c_fldsp o v1)
  unfolding pre_check_trap_rv32c_fldsp
  pre_check_trap_rv32c_fldsp-Keeps o v1 = search (step_io) depth 30 fits 3000

  pub pre_check_trap_rv32c_flw-Keeps :
      (o : Op) (v1 : ℕ) → Keeps {D = D} (pre_check_trap_rv32c_flw o v1)
  unfolding pre_check_trap_rv32c_flw
  pre_check_trap_rv32c_flw-Keeps o v1 = search (step_io) depth 30 fits 3000

  pub pre_check_trap_rv32c_flwsp-Keeps :
      (o : Op) (v1 : ℕ) → Keeps {D = D} (pre_check_trap_rv32c_flwsp o v1)
  unfolding pre_check_trap_rv32c_flwsp
  pre_check_trap_rv32c_flwsp-Keeps o v1 = search (step_io) depth 30 fits 3000

  pub pre_check_trap_rv32c_lw-Keeps :
      (o : Op) (v1 : ℕ) → Keeps {D = D} (pre_check_trap_rv32c_lw o v1)
  unfolding pre_check_trap_rv32c_lw
  pre_check_trap_rv32c_lw-Keeps o v1 = search (step_io) depth 30 fits 3000

  pub pre_check_trap_rv32c_lwsp-Keeps :
      (o : Op) (v1 : ℕ) → Keeps {D = D} (pre_check_trap_rv32c_lwsp o v1)
  unfolding pre_check_trap_rv32c_lwsp
  pre_check_trap_rv32c_lwsp-Keeps o v1 = search (step_io) depth 30 fits 3000

  pub pre_check_trap_rv32c_fsd-Keeps :
      (o : Op) (v1 : ℕ) → Keeps {D = D} (pre_check_trap_rv32c_fsd o v1)
  unfolding pre_check_trap_rv32c_fsd
  pre_check_trap_rv32c_fsd-Keeps o v1 = search (step_io) depth 30 fits 3000

  pub pre_check_trap_rv32c_fsdsp-Keeps :
      (o : Op) (v1 : ℕ) → Keeps {D = D} (pre_check_trap_rv32c_fsdsp o v1)
  unfolding pre_check_trap_rv32c_fsdsp
  pre_check_trap_rv32c_fsdsp-Keeps o v1 = search (step_io) depth 30 fits 3000

  pub pre_check_trap_rv32c_fsw-Keeps :
      (o : Op) (v1 : ℕ) → Keeps {D = D} (pre_check_trap_rv32c_fsw o v1)
  unfolding pre_check_trap_rv32c_fsw
  pre_check_trap_rv32c_fsw-Keeps o v1 = search (step_io) depth 30 fits 3000

  pub pre_check_trap_rv32c_fswsp-Keeps :
      (o : Op) (v1 : ℕ) → Keeps {D = D} (pre_check_trap_rv32c_fswsp o v1)
  unfolding pre_check_trap_rv32c_fswsp
  pre_check_trap_rv32c_fswsp-Keeps o v1 = search (step_io) depth 30 fits 3000

  pub pre_check_trap_rv32c_sw-Keeps :
      (o : Op) (v1 : ℕ) → Keeps {D = D} (pre_check_trap_rv32c_sw o v1)
  unfolding pre_check_trap_rv32c_sw
  pre_check_trap_rv32c_sw-Keeps o v1 = search (step_io) depth 30 fits 3000

  pub pre_check_trap_rv32c_swsp-Keeps :
      (o : Op) (v1 : ℕ) → Keeps {D = D} (pre_check_trap_rv32c_swsp o v1)
  unfolding pre_check_trap_rv32c_swsp
  pre_check_trap_rv32c_swsp-Keeps o v1 = search (step_io) depth 30 fits 3000

  ruleset pre_check_trap_rv32c_code_parts = (
    pre_check_trap_rv32c_fld-Keeps, pre_check_trap_rv32c_fldsp-Keeps,
    pre_check_trap_rv32c_flw-Keeps, pre_check_trap_rv32c_flwsp-Keeps, pre_check_trap_rv32c_lw-Keeps,
    pre_check_trap_rv32c_lwsp-Keeps, pre_check_trap_rv32c_fsd-Keeps,
    pre_check_trap_rv32c_fsdsp-Keeps, pre_check_trap_rv32c_fsw-Keeps,
    pre_check_trap_rv32c_fswsp-Keeps, pre_check_trap_rv32c_sw-Keeps,
    pre_check_trap_rv32c_swsp-Keeps,
  )

  pub pre_check_trap_rv32c_code-Keeps :
      (c0 : OpCode) (o : Op) (v2 : ℕ) → Keeps {D = D} (pre_check_trap_rv32c_code c0 o v2)
  unfolding pre_check_trap_rv32c_code
  pre_check_trap_rv32c_code-Keeps OpCode.c_fld o v2 =
      search (step_io, pre_check_trap_rv32c_code_parts) depth 30 fits 3000
  pre_check_trap_rv32c_code-Keeps _ o v2 =
      search (step_io, pre_check_trap_rv32c_code_parts) depth 30 fits 3000

  pub pre_check_trap_rv32c-Keeps : (o : Op) (v1 : ℕ) → Keeps {D = D} (pre_check_trap_rv32c o v1)
  unfolding pre_check_trap_rv32c
  pre_check_trap_rv32c-Keeps o v1 =
      search (step_io, pre_check_trap_rv32c_code-Keeps) depth 30 fits 3000

  pub pre_check_trap_rv64c_fld-Keeps :
      (o : Op) (v1 : ℕ) → Keeps {D = D} (pre_check_trap_rv64c_fld o v1)
  unfolding pre_check_trap_rv64c_fld
  pre_check_trap_rv64c_fld-Keeps o v1 = search (step_io) depth 30 fits 3000

  pub pre_check_trap_rv64c_fldsp-Keeps :
      (o : Op) (v1 : ℕ) → Keeps {D = D} (pre_check_trap_rv64c_fldsp o v1)
  unfolding pre_check_trap_rv64c_fldsp
  pre_check_trap_rv64c_fldsp-Keeps o v1 = search (step_io) depth 30 fits 3000

  pub pre_check_trap_rv64c_ld-Keeps :
      (o : Op) (v1 : ℕ) → Keeps {D = D} (pre_check_trap_rv64c_ld o v1)
  unfolding pre_check_trap_rv64c_ld
  pre_check_trap_rv64c_ld-Keeps o v1 = search (step_io) depth 30 fits 3000

  pub pre_check_trap_rv64c_ldsp-Keeps :
      (o : Op) (v1 : ℕ) → Keeps {D = D} (pre_check_trap_rv64c_ldsp o v1)
  unfolding pre_check_trap_rv64c_ldsp
  pre_check_trap_rv64c_ldsp-Keeps o v1 = search (step_io) depth 30 fits 3000

  pub pre_check_trap_rv64c_lw-Keeps :
      (o : Op) (v1 : ℕ) → Keeps {D = D} (pre_check_trap_rv64c_lw o v1)
  unfolding pre_check_trap_rv64c_lw
  pre_check_trap_rv64c_lw-Keeps o v1 = search (step_io) depth 30 fits 3000

  pub pre_check_trap_rv64c_lwsp-Keeps :
      (o : Op) (v1 : ℕ) → Keeps {D = D} (pre_check_trap_rv64c_lwsp o v1)
  unfolding pre_check_trap_rv64c_lwsp
  pre_check_trap_rv64c_lwsp-Keeps o v1 = search (step_io) depth 30 fits 3000

  pub pre_check_trap_rv64c_fsd-Keeps :
      (o : Op) (v1 : ℕ) → Keeps {D = D} (pre_check_trap_rv64c_fsd o v1)
  unfolding pre_check_trap_rv64c_fsd
  pre_check_trap_rv64c_fsd-Keeps o v1 = search (step_io) depth 30 fits 3000

  pub pre_check_trap_rv64c_fsdsp-Keeps :
      (o : Op) (v1 : ℕ) → Keeps {D = D} (pre_check_trap_rv64c_fsdsp o v1)
  unfolding pre_check_trap_rv64c_fsdsp
  pre_check_trap_rv64c_fsdsp-Keeps o v1 = search (step_io) depth 30 fits 3000

  pub pre_check_trap_rv64c_sd-Keeps :
      (o : Op) (v1 : ℕ) → Keeps {D = D} (pre_check_trap_rv64c_sd o v1)
  unfolding pre_check_trap_rv64c_sd
  pre_check_trap_rv64c_sd-Keeps o v1 = search (step_io) depth 30 fits 3000

  pub pre_check_trap_rv64c_sdsp-Keeps :
      (o : Op) (v1 : ℕ) → Keeps {D = D} (pre_check_trap_rv64c_sdsp o v1)
  unfolding pre_check_trap_rv64c_sdsp
  pre_check_trap_rv64c_sdsp-Keeps o v1 = search (step_io) depth 30 fits 3000

  pub pre_check_trap_rv64c_sw-Keeps :
      (o : Op) (v1 : ℕ) → Keeps {D = D} (pre_check_trap_rv64c_sw o v1)
  unfolding pre_check_trap_rv64c_sw
  pre_check_trap_rv64c_sw-Keeps o v1 = search (step_io) depth 30 fits 3000

  pub pre_check_trap_rv64c_swsp-Keeps :
      (o : Op) (v1 : ℕ) → Keeps {D = D} (pre_check_trap_rv64c_swsp o v1)
  unfolding pre_check_trap_rv64c_swsp
  pre_check_trap_rv64c_swsp-Keeps o v1 = search (step_io) depth 30 fits 3000

  ruleset pre_check_trap_rv64c_code_parts = (
    pre_check_trap_rv64c_fld-Keeps, pre_check_trap_rv64c_fldsp-Keeps, pre_check_trap_rv64c_ld-Keeps,
    pre_check_trap_rv64c_ldsp-Keeps, pre_check_trap_rv64c_lw-Keeps, pre_check_trap_rv64c_lwsp-Keeps,
    pre_check_trap_rv64c_fsd-Keeps, pre_check_trap_rv64c_fsdsp-Keeps, pre_check_trap_rv64c_sd-Keeps,
    pre_check_trap_rv64c_sdsp-Keeps, pre_check_trap_rv64c_sw-Keeps, pre_check_trap_rv64c_swsp-Keeps,
  )

  pub pre_check_trap_rv64c_code-Keeps :
      (c0 : OpCode) (o : Op) (v2 : ℕ) → Keeps {D = D} (pre_check_trap_rv64c_code c0 o v2)
  unfolding pre_check_trap_rv64c_code
  pre_check_trap_rv64c_code-Keeps OpCode.c_fld o v2 =
      search (step_io, pre_check_trap_rv64c_code_parts) depth 30 fits 3000
  pre_check_trap_rv64c_code-Keeps _ o v2 =
      search (step_io, pre_check_trap_rv64c_code_parts) depth 30 fits 3000

  pub pre_check_trap_rv64c-Keeps : (o : Op) (v1 : ℕ) → Keeps {D = D} (pre_check_trap_rv64c o v1)
  unfolding pre_check_trap_rv64c
  pre_check_trap_rv64c-Keeps o v1 =
      search (step_io, pre_check_trap_rv64c_code-Keeps) depth 30 fits 3000
