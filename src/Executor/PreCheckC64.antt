-- ===== src/Executor/PreCheckC64.antt =====
-- src/rafi-emu/cpu/Executor.cpp: the checks of the RV64C loads and stores before they are executed.
use rafi_emu.Common.{ℕ, ◌+◌, Option, none}
use rafi_emu.Word.{u64}
use rafi_emu.Op.{Op, OpCode}
use rafi_emu.Bus.{Io}
use rafi_emu.Executor.Machine.{E, pure, ◌>>=◌, lift, read_x64, check_access}
use rafi_emu.Executor.Operands.{get_ci, get_css, get_cl, get_cs}
use rafi_emu.Trap.{Trap}
use rafi_emu.RvTypes.{load, store}

module _ {D : Type 0} ⦃io : Io D⦄ where
  unfoldable pub pre_check_trap_rv64c_fld : Op → ℕ → E D (Option Trap)
  pre_check_trap_rv64c_fld o pc = do
    (imm, _, rs1) ← lift (get_cl o.operand)
    src ← read_x64 rs1
    check_access load pc (u64 (src + imm))

  unfoldable pub pre_check_trap_rv64c_fldsp : Op → ℕ → E D (Option Trap)
  pre_check_trap_rv64c_fldsp o pc = do
    (imm, _, _) ← lift (get_ci o.operand)
    src ← read_x64 2
    check_access load pc (u64 (src + imm))

  unfoldable pub pre_check_trap_rv64c_ld : Op → ℕ → E D (Option Trap)
  pre_check_trap_rv64c_ld o pc = do
    (imm, _, rs1) ← lift (get_cl o.operand)
    src ← read_x64 rs1
    check_access load pc (u64 (src + imm))

  unfoldable pub pre_check_trap_rv64c_ldsp : Op → ℕ → E D (Option Trap)
  pre_check_trap_rv64c_ldsp o pc = do
    (imm, _, _) ← lift (get_ci o.operand)
    src ← read_x64 2
    check_access load pc (u64 (src + imm))

  unfoldable pub pre_check_trap_rv64c_lw : Op → ℕ → E D (Option Trap)
  pre_check_trap_rv64c_lw o pc = do
    (imm, _, rs1) ← lift (get_cl o.operand)
    src ← read_x64 rs1
    check_access load pc (u64 (src + imm))

  unfoldable pub pre_check_trap_rv64c_lwsp : Op → ℕ → E D (Option Trap)
  pre_check_trap_rv64c_lwsp o pc = do
    (imm, _, _) ← lift (get_ci o.operand)
    src ← read_x64 2
    check_access load pc (u64 (src + imm))

  unfoldable pub pre_check_trap_rv64c_fsd : Op → ℕ → E D (Option Trap)
  pre_check_trap_rv64c_fsd o pc = do
    (imm, rs1, _) ← lift (get_cs o.operand)
    src ← read_x64 rs1
    check_access store pc (u64 (src + imm))

  unfoldable pub pre_check_trap_rv64c_fsdsp : Op → ℕ → E D (Option Trap)
  pre_check_trap_rv64c_fsdsp o pc = do
    (imm, _) ← lift (get_css o.operand)
    src ← read_x64 2
    check_access store pc (u64 (src + imm))

  unfoldable pub pre_check_trap_rv64c_sd : Op → ℕ → E D (Option Trap)
  pre_check_trap_rv64c_sd o pc = do
    (imm, rs1, _) ← lift (get_cs o.operand)
    src ← read_x64 rs1
    check_access store pc (u64 (src + imm))

  unfoldable pub pre_check_trap_rv64c_sdsp : Op → ℕ → E D (Option Trap)
  pre_check_trap_rv64c_sdsp o pc = do
    (imm, _) ← lift (get_css o.operand)
    src ← read_x64 2
    check_access store pc (u64 (src + imm))

  unfoldable pub pre_check_trap_rv64c_sw : Op → ℕ → E D (Option Trap)
  pre_check_trap_rv64c_sw o pc = do
    (imm, rs1, _) ← lift (get_cs o.operand)
    src ← read_x64 rs1
    check_access store pc (u64 (src + imm))

  unfoldable pub pre_check_trap_rv64c_swsp : Op → ℕ → E D (Option Trap)
  pre_check_trap_rv64c_swsp o pc = do
    (imm, _) ← lift (get_css o.operand)
    src ← read_x64 2
    check_access store pc (u64 (src + imm))

  unfoldable pub pre_check_trap_rv64c_code : OpCode → Op → ℕ → E D (Option Trap)
  pre_check_trap_rv64c_code OpCode.c_fld o pc = pre_check_trap_rv64c_fld o pc
  pre_check_trap_rv64c_code OpCode.c_fldsp o pc = pre_check_trap_rv64c_fldsp o pc
  pre_check_trap_rv64c_code OpCode.c_ld o pc = pre_check_trap_rv64c_ld o pc
  pre_check_trap_rv64c_code OpCode.c_ldsp o pc = pre_check_trap_rv64c_ldsp o pc
  pre_check_trap_rv64c_code OpCode.c_lw o pc = pre_check_trap_rv64c_lw o pc
  pre_check_trap_rv64c_code OpCode.c_lwsp o pc = pre_check_trap_rv64c_lwsp o pc
  pre_check_trap_rv64c_code OpCode.c_fsd o pc = pre_check_trap_rv64c_fsd o pc
  pre_check_trap_rv64c_code OpCode.c_fsdsp o pc = pre_check_trap_rv64c_fsdsp o pc
  pre_check_trap_rv64c_code OpCode.c_sd o pc = pre_check_trap_rv64c_sd o pc
  pre_check_trap_rv64c_code OpCode.c_sdsp o pc = pre_check_trap_rv64c_sdsp o pc
  pre_check_trap_rv64c_code OpCode.c_sw o pc = pre_check_trap_rv64c_sw o pc
  pre_check_trap_rv64c_code OpCode.c_swsp o pc = pre_check_trap_rv64c_swsp o pc
  pre_check_trap_rv64c_code _ o pc = pure none

  unfoldable pub pre_check_trap_rv64c : Op → ℕ → E D (Option Trap)
  pre_check_trap_rv64c o pc = pre_check_trap_rv64c_code o.op_code o pc
