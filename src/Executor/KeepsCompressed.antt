-- ===== src/Executor/KeepsCompressed.antt =====
-- src/rafi-emu/cpu/Executor.cpp: the register file over the RV32C and RV64C instructions.
use rafi_emu.Common.{ℕ}
use rafi_emu.Bus.{Io}
use rafi_emu.Op.{Op, OpCode}
use rafi_emu.Executor.Keeps.{Keeps, step, step_io}
use rafi_emu.Executor.Rv32C.{
  process_rv32c_alu, process_rv32c_alu_imm, process_rv32c_branch, process_rv32c_addi4spn,
  process_rv32c_addi16sp, process_rv32c_j, process_rv32c_jal, process_rv32c_jr, process_rv32c_jalr,
}
use rafi_emu.Executor.Rv64C.{
  process_rv64c_alu, process_rv64c_alu_imm, process_rv64c_branch, process_rv64c_addi4spn,
  process_rv64c_addi16sp, process_rv64c_j, process_rv64c_jr, process_rv64c_jalr,
}
use rafi_emu.Executor.AccessC32.{
  process_rv32c_fld, process_rv32c_fldsp, process_rv32c_flw, process_rv32c_flwsp, process_rv32c_lw,
  process_rv32c_lwsp, process_rv32c_fsd, process_rv32c_fsdsp, process_rv32c_fsw,
  process_rv32c_fswsp, process_rv32c_sw, process_rv32c_swsp,
}
use rafi_emu.Executor.AccessC64.{
  process_rv64c_fld, process_rv64c_fldsp, process_rv64c_ld, process_rv64c_ldsp, process_rv64c_lw,
  process_rv64c_lwsp, process_rv64c_fsd, process_rv64c_fsdsp, process_rv64c_sd, process_rv64c_sdsp,
  process_rv64c_sw, process_rv64c_swsp,
}
use rafi_emu.Executor.Compressed32.{process_rv32c_code, process_rv32c}
use rafi_emu.Executor.Compressed64.{process_rv64c_code, process_rv64c}
use rafi_emu.Executor.KeepsRegisters.{jump_if32-Keeps, jump_if64-Keeps}

module _ {D : Type 0} where
  pub process_rv32c_alu-Keeps : (o : Op) → Keeps {D = D} (process_rv32c_alu o)
  unfolding process_rv32c_alu
  process_rv32c_alu-Keeps o = search (step) depth 30 fits 3000

  pub process_rv32c_alu_imm-Keeps : (o : Op) → Keeps {D = D} (process_rv32c_alu_imm o)
  unfolding process_rv32c_alu_imm
  process_rv32c_alu_imm-Keeps o = search (step) depth 30 fits 3000

  pub process_rv32c_branch-Keeps : (o : Op) (v1 : ℕ) → Keeps {D = D} (process_rv32c_branch o v1)
  unfolding process_rv32c_branch
  process_rv32c_branch-Keeps o v1 = search (step, jump_if32-Keeps) depth 30 fits 3000

  pub process_rv32c_addi4spn-Keeps : (o : Op) → Keeps {D = D} (process_rv32c_addi4spn o)
  unfolding process_rv32c_addi4spn
  process_rv32c_addi4spn-Keeps o = search (step) depth 30 fits 3000

  pub process_rv32c_addi16sp-Keeps : (o : Op) → Keeps {D = D} (process_rv32c_addi16sp o)
  unfolding process_rv32c_addi16sp
  process_rv32c_addi16sp-Keeps o = search (step) depth 30 fits 3000

  pub process_rv32c_j-Keeps : (o : Op) (v1 : ℕ) → Keeps {D = D} (process_rv32c_j o v1)
  unfolding process_rv32c_j
  process_rv32c_j-Keeps o v1 = search (step, jump_if32-Keeps) depth 30 fits 3000

  pub process_rv32c_jal-Keeps : (o : Op) (v1 : ℕ) → Keeps {D = D} (process_rv32c_jal o v1)
  unfolding process_rv32c_jal
  process_rv32c_jal-Keeps o v1 = search (step) depth 30 fits 3000

  pub process_rv32c_jr-Keeps : (o : Op) (v1 : ℕ) → Keeps {D = D} (process_rv32c_jr o v1)
  unfolding process_rv32c_jr
  process_rv32c_jr-Keeps o v1 = search (step) depth 30 fits 3000

  pub process_rv32c_jalr-Keeps : (o : Op) (v1 : ℕ) → Keeps {D = D} (process_rv32c_jalr o v1)
  unfolding process_rv32c_jalr
  process_rv32c_jalr-Keeps o v1 = search (step) depth 30 fits 3000

  pub process_rv64c_alu-Keeps : (o : Op) → Keeps {D = D} (process_rv64c_alu o)
  unfolding process_rv64c_alu
  process_rv64c_alu-Keeps o = search (step) depth 30 fits 3000

  pub process_rv64c_alu_imm-Keeps : (o : Op) → Keeps {D = D} (process_rv64c_alu_imm o)
  unfolding process_rv64c_alu_imm
  process_rv64c_alu_imm-Keeps o = search (step) depth 30 fits 3000

  pub process_rv64c_branch-Keeps : (o : Op) (v1 : ℕ) → Keeps {D = D} (process_rv64c_branch o v1)
  unfolding process_rv64c_branch
  process_rv64c_branch-Keeps o v1 = search (step, jump_if64-Keeps) depth 30 fits 3000

  pub process_rv64c_addi4spn-Keeps : (o : Op) → Keeps {D = D} (process_rv64c_addi4spn o)
  unfolding process_rv64c_addi4spn
  process_rv64c_addi4spn-Keeps o = search (step) depth 30 fits 3000

  pub process_rv64c_addi16sp-Keeps : (o : Op) → Keeps {D = D} (process_rv64c_addi16sp o)
  unfolding process_rv64c_addi16sp
  process_rv64c_addi16sp-Keeps o = search (step) depth 30 fits 3000

  pub process_rv64c_j-Keeps : (o : Op) (v1 : ℕ) → Keeps {D = D} (process_rv64c_j o v1)
  unfolding process_rv64c_j
  process_rv64c_j-Keeps o v1 = search (step, jump_if64-Keeps) depth 30 fits 3000

  pub process_rv64c_jr-Keeps : (o : Op) (v1 : ℕ) → Keeps {D = D} (process_rv64c_jr o v1)
  unfolding process_rv64c_jr
  process_rv64c_jr-Keeps o v1 = search (step) depth 30 fits 3000

  pub process_rv64c_jalr-Keeps : (o : Op) (v1 : ℕ) → Keeps {D = D} (process_rv64c_jalr o v1)
  unfolding process_rv64c_jalr
  process_rv64c_jalr-Keeps o v1 = search (step) depth 30 fits 3000

module _ {D : Type 0} ⦃io : Io D⦄ where
  pub process_rv32c_fld-Keeps : (o : Op) → Keeps {D = D} (process_rv32c_fld o)
  unfolding process_rv32c_fld
  process_rv32c_fld-Keeps o = search (step_io) depth 30 fits 3000

  pub process_rv32c_fldsp-Keeps : (o : Op) → Keeps {D = D} (process_rv32c_fldsp o)
  unfolding process_rv32c_fldsp
  process_rv32c_fldsp-Keeps o = search (step_io) depth 30 fits 3000

  pub process_rv32c_flw-Keeps : (o : Op) → Keeps {D = D} (process_rv32c_flw o)
  unfolding process_rv32c_flw
  process_rv32c_flw-Keeps o = search (step_io) depth 30 fits 3000

  pub process_rv32c_flwsp-Keeps : (o : Op) → Keeps {D = D} (process_rv32c_flwsp o)
  unfolding process_rv32c_flwsp
  process_rv32c_flwsp-Keeps o = search (step_io) depth 30 fits 3000

  pub process_rv32c_lw-Keeps : (o : Op) → Keeps {D = D} (process_rv32c_lw o)
  unfolding process_rv32c_lw
  process_rv32c_lw-Keeps o = search (step_io) depth 30 fits 3000

  pub process_rv32c_lwsp-Keeps : (o : Op) → Keeps {D = D} (process_rv32c_lwsp o)
  unfolding process_rv32c_lwsp
  process_rv32c_lwsp-Keeps o = search (step_io) depth 30 fits 3000

  pub process_rv32c_fsd-Keeps : (o : Op) → Keeps {D = D} (process_rv32c_fsd o)
  unfolding process_rv32c_fsd
  process_rv32c_fsd-Keeps o = search (step_io) depth 30 fits 3000

  pub process_rv32c_fsdsp-Keeps : (o : Op) → Keeps {D = D} (process_rv32c_fsdsp o)
  unfolding process_rv32c_fsdsp
  process_rv32c_fsdsp-Keeps o = search (step_io) depth 30 fits 3000

  pub process_rv32c_fsw-Keeps : (o : Op) → Keeps {D = D} (process_rv32c_fsw o)
  unfolding process_rv32c_fsw
  process_rv32c_fsw-Keeps o = search (step_io) depth 30 fits 3000

  pub process_rv32c_fswsp-Keeps : (o : Op) → Keeps {D = D} (process_rv32c_fswsp o)
  unfolding process_rv32c_fswsp
  process_rv32c_fswsp-Keeps o = search (step_io) depth 30 fits 3000

  pub process_rv32c_sw-Keeps : (o : Op) → Keeps {D = D} (process_rv32c_sw o)
  unfolding process_rv32c_sw
  process_rv32c_sw-Keeps o = search (step_io) depth 30 fits 3000

  pub process_rv32c_swsp-Keeps : (o : Op) → Keeps {D = D} (process_rv32c_swsp o)
  unfolding process_rv32c_swsp
  process_rv32c_swsp-Keeps o = search (step_io) depth 30 fits 3000

  pub process_rv64c_fld-Keeps : (o : Op) → Keeps {D = D} (process_rv64c_fld o)
  unfolding process_rv64c_fld
  process_rv64c_fld-Keeps o = search (step_io) depth 30 fits 3000

  pub process_rv64c_fldsp-Keeps : (o : Op) → Keeps {D = D} (process_rv64c_fldsp o)
  unfolding process_rv64c_fldsp
  process_rv64c_fldsp-Keeps o = search (step_io) depth 30 fits 3000

  pub process_rv64c_ld-Keeps : (o : Op) → Keeps {D = D} (process_rv64c_ld o)
  unfolding process_rv64c_ld
  process_rv64c_ld-Keeps o = search (step_io) depth 30 fits 3000

  pub process_rv64c_ldsp-Keeps : (o : Op) → Keeps {D = D} (process_rv64c_ldsp o)
  unfolding process_rv64c_ldsp
  process_rv64c_ldsp-Keeps o = search (step_io) depth 30 fits 3000

  pub process_rv64c_lw-Keeps : (o : Op) → Keeps {D = D} (process_rv64c_lw o)
  unfolding process_rv64c_lw
  process_rv64c_lw-Keeps o = search (step_io) depth 30 fits 3000

  pub process_rv64c_lwsp-Keeps : (o : Op) → Keeps {D = D} (process_rv64c_lwsp o)
  unfolding process_rv64c_lwsp
  process_rv64c_lwsp-Keeps o = search (step_io) depth 30 fits 3000

  pub process_rv64c_fsd-Keeps : (o : Op) → Keeps {D = D} (process_rv64c_fsd o)
  unfolding process_rv64c_fsd
  process_rv64c_fsd-Keeps o = search (step_io) depth 30 fits 3000

  pub process_rv64c_fsdsp-Keeps : (o : Op) → Keeps {D = D} (process_rv64c_fsdsp o)
  unfolding process_rv64c_fsdsp
  process_rv64c_fsdsp-Keeps o = search (step_io) depth 30 fits 3000

  pub process_rv64c_sd-Keeps : (o : Op) → Keeps {D = D} (process_rv64c_sd o)
  unfolding process_rv64c_sd
  process_rv64c_sd-Keeps o = search (step_io) depth 30 fits 3000

  pub process_rv64c_sdsp-Keeps : (o : Op) → Keeps {D = D} (process_rv64c_sdsp o)
  unfolding process_rv64c_sdsp
  process_rv64c_sdsp-Keeps o = search (step_io) depth 30 fits 3000

  pub process_rv64c_sw-Keeps : (o : Op) → Keeps {D = D} (process_rv64c_sw o)
  unfolding process_rv64c_sw
  process_rv64c_sw-Keeps o = search (step_io) depth 30 fits 3000

  pub process_rv64c_swsp-Keeps : (o : Op) → Keeps {D = D} (process_rv64c_swsp o)
  unfolding process_rv64c_swsp
  process_rv64c_swsp-Keeps o = search (step_io) depth 30 fits 3000

  ruleset process_rv32c_code_parts = (
    process_rv32c_alu-Keeps, process_rv32c_alu_imm-Keeps, process_rv32c_branch-Keeps,
    process_rv32c_addi4spn-Keeps, process_rv32c_addi16sp-Keeps, process_rv32c_j-Keeps,
    process_rv32c_jal-Keeps, process_rv32c_jr-Keeps, process_rv32c_jalr-Keeps,
    process_rv32c_fld-Keeps, process_rv32c_fldsp-Keeps, process_rv32c_flw-Keeps,
    process_rv32c_flwsp-Keeps, process_rv32c_lw-Keeps, process_rv32c_lwsp-Keeps,
    process_rv32c_fsd-Keeps, process_rv32c_fsdsp-Keeps, process_rv32c_fsw-Keeps,
    process_rv32c_fswsp-Keeps, process_rv32c_sw-Keeps, process_rv32c_swsp-Keeps,
  )

  pub process_rv32c_code-Keeps :
      (c0 : OpCode) (o : Op) (v2 : ℕ) → Keeps {D = D} (process_rv32c_code c0 o v2)
  unfolding process_rv32c_code
  process_rv32c_code-Keeps OpCode.c_nop o v2 =
      search (step_io, process_rv32c_code_parts) depth 30 fits 3000
  process_rv32c_code-Keeps _ o v2 = search (step_io, process_rv32c_code_parts) depth 30 fits 3000

  pub process_rv32c-Keeps : (o : Op) (v1 : ℕ) → Keeps {D = D} (process_rv32c o v1)
  unfolding process_rv32c
  process_rv32c-Keeps o v1 = search (step_io, process_rv32c_code-Keeps) depth 30 fits 3000

  ruleset process_rv64c_code_parts = (
    process_rv64c_alu-Keeps, process_rv64c_alu_imm-Keeps, process_rv64c_branch-Keeps,
    process_rv64c_addi4spn-Keeps, process_rv64c_addi16sp-Keeps, process_rv64c_j-Keeps,
    process_rv64c_jr-Keeps, process_rv64c_jalr-Keeps, process_rv64c_fld-Keeps,
    process_rv64c_fldsp-Keeps, process_rv64c_ld-Keeps, process_rv64c_ldsp-Keeps,
    process_rv64c_lw-Keeps, process_rv64c_lwsp-Keeps, process_rv64c_fsd-Keeps,
    process_rv64c_fsdsp-Keeps, process_rv64c_sd-Keeps, process_rv64c_sdsp-Keeps,
    process_rv64c_sw-Keeps, process_rv64c_swsp-Keeps,
  )

  pub process_rv64c_code-Keeps :
      (c0 : OpCode) (o : Op) (v2 : ℕ) → Keeps {D = D} (process_rv64c_code c0 o v2)
  unfolding process_rv64c_code
  process_rv64c_code-Keeps OpCode.c_nop o v2 =
      search (step_io, process_rv64c_code_parts) depth 30 fits 3000
  process_rv64c_code-Keeps _ o v2 = search (step_io, process_rv64c_code_parts) depth 30 fits 3000

  pub process_rv64c-Keeps : (o : Op) (v1 : ℕ) → Keeps {D = D} (process_rv64c o v1)
  unfolding process_rv64c
  process_rv64c-Keeps o v1 = search (step_io, process_rv64c_code-Keeps) depth 30 fits 3000
