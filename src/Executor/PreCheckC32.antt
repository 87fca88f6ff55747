-- ===== src/Executor/PreCheckC32.antt =====
-- src/rafi-emu/cpu/Executor.cpp: the checks of the RV32C loads and stores before they are executed.
use rafi_emu.Common.{ℕ, ◌+◌, Option, none}
use rafi_emu.Word.{u64}
use rafi_emu.Op.{Op, OpCode}
use rafi_emu.Bus.{Io}
use rafi_emu.Executor.Machine.{E, pure, ◌>>=◌, lift, read_x32, read_f32, read_f64, check_access}
use rafi_emu.Executor.Operands.{get_ci, get_css, get_cl, get_cs}
use rafi_emu.Trap.{Trap}
use rafi_emu.RvTypes.{load, store}

module _ {D : Type 0} ⦃io : Io D⦄ where
  unfoldable pub pre_check_trap_rv32c_fld : Op → ℕ → E D (Option Trap)
  pre_check_trap_rv32c_fld o pc = do
    (imm, _, rs1) ← lift (get_cl o.operand)
    src ← read_x32 rs1
    check_access load pc (u64 (src + imm))

  unfoldable pub pre_check_trap_rv32c_fldsp : Op → ℕ → E D (Option Trap)
  pre_check_trap_rv32c_fldsp o pc = do
    (imm, _, _) ← lift (get_ci o.operand)
    src ← read_x32 2
    check_access load pc (u64 (src + imm))

  unfoldable pub pre_check_trap_rv32c_flw : Op → ℕ → E D (Option Trap)
  pre_check_trap_rv32c_flw o pc = do
    (imm, _, rs1) ← lift (get_cl o.operand)
    src ← read_x32 rs1
    check_access load pc (u64 (src + imm))

  unfoldable pub pre_check_trap_rv32c_flwsp : Op → ℕ → E D (Option Trap)
  pre_check_trap_rv32c_flwsp o pc = do
    (imm, _, _) ← lift (get_ci o.operand)
    src ← read_x32 2
    check_access load pc (u64 (src + imm))

  unfoldable pub pre_check_trap_rv32c_lw : Op → ℕ → E D (Option Trap)
  pre_check_trap_rv32c_lw o pc = do
    (imm, _, rs1) ← lift (get_cl o.operand)
    src ← read_x32 rs1
    check_access load pc (u64 (src + imm))

  unfoldable pub pre_check_trap_rv32c_lwsp : Op → ℕ → E D (Option Trap)
  pre_check_trap_rv32c_lwsp o pc = do
    (imm, _, _) ← lift (get_ci o.operand)
    src ← read_x32 2
    check_access load pc (u64 (src + imm))

  unfoldable pub pre_check_trap_rv32c_fsd : Op → ℕ → E D (Option Trap)
  pre_check_trap_rv32c_fsd o pc = do
    (imm, rs1, rs2) ← lift (get_cs o.operand)
    src ← read_x32 rs1
    _ ← read_f64 rs2
    check_access store pc (u64 (src + imm))

  unfoldable pub pre_check_trap_rv32c_fsdsp : Op → ℕ → E D (Option Trap)
  pre_check_trap_rv32c_fsdsp o pc = do
    (imm, rs2) ← lift (get_css o.operand)
    src ← read_x32 2
    _ ← read_f64 rs2
    check_access store pc (u64 (src + imm))

  unfoldable pub pre_check_trap_rv32c_fsw : Op → ℕ → E D (Option Trap)
  pre_check_trap_rv32c_fsw o pc = do
    (imm, rs1, rs2) ← lift (get_cs o.operand)
    src ← read_x32 rs1
    _ ← read_f32 rs2
    check_access store pc (u64 (src + imm))

  unfoldable pub pre_check_trap_rv32c_fswsp : Op → ℕ → E D (Option Trap)
  pre_check_trap_rv32c_fswsp o pc = do
    (imm, rs2) ← lift (get_css o.operand)
    src ← read_x32 2
    _ ← read_f32 rs2
    check_access store pc (u64 (src + imm))

  unfoldable pub pre_check_trap_rv32c_sw : Op → ℕ → E D (Option Trap)
  pre_check_trap_rv32c_sw o pc = do
    (imm, rs1, _) ← lift (get_cs o.operand)
    src ← read_x32 rs1
    check_access store pc (u64 (src + imm))

  unfoldable pub pre_check_trap_rv32c_swsp : Op → ℕ → E D (Option Trap)
  pre_check_trap_rv32c_swsp o pc = do
    (imm, _) ← lift (get_css o.operand)
    src ← read_x32 2
    check_access store pc (u64 (src + imm))

  unfoldable pub pre_check_trap_rv32c_code : OpCode → Op → ℕ → E D (Option Trap)
  pre_check_trap_rv32c_code OpCode.c_fld o pc = pre_check_trap_rv32c_fld o pc
  pre_check_trap_rv32c_code OpCode.c_fldsp o pc = pre_check_trap_rv32c_fldsp o pc
  pre_check_trap_rv32c_code OpCode.c_flw o pc = pre_check_trap_rv32c_flw o pc
  pre_check_trap_rv32c_code OpCode.c_flwsp o pc = pre_check_trap_rv32c_flwsp o pc
  pre_check_trap_rv32c_code OpCode.c_lw o pc = pre_check_trap_rv32c_lw o pc
  pre_check_trap_rv32c_code OpCode.c_lwsp o pc = pre_check_trap_rv32c_lwsp o pc
  pre_check_trap_rv32c_code OpCode.c_fsd o pc = pre_check_trap_rv32c_fsd o pc
  pre_check_trap_rv32c_code OpCode.c_fsdsp o pc = pre_check_trap_rv32c_fsdsp o pc
  pre_check_trap_rv32c_code OpCode.c_fsw o pc = pre_check_trap_rv32c_fsw o pc
  pre_check_trap_rv32c_code OpCode.c_fswsp o pc = pre_check_trap_rv32c_fswsp o pc
  pre_check_trap_rv32c_code OpCode.c_sw o pc = pre_check_trap_rv32c_sw o pc
  pre_check_trap_rv32c_code OpCode.c_swsp o pc = pre_check_trap_rv32c_swsp o pc
  pre_check_trap_rv32c_code _ o pc = pure none

  unfoldable pub pre_check_trap_rv32c : Op → ℕ → E D (Option Trap)
  pre_check_trap_rv32c o pc = pre_check_trap_rv32c_code o.op_code o pc
