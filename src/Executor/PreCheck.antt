-- ===== src/Executor/PreCheck.antt =====
-- src/rafi-emu/cpu/Executor.cpp: the checks of loads, stores and atomic operations before they are executed.
use rafi_emu.Common.{ℕ, ◌+◌, Option}
use rafi_emu.Word.{u64}
use rafi_emu.Op.{Op}
use rafi_emu.Bus.{Io}
use rafi_emu.Executor.Machine.{E, ◌>>=◌, lift, read_x32, read_x64, check_access, unless_trap}
use rafi_emu.Executor.Operands.{get_r, get_i, get_s}
use rafi_emu.Trap.{Trap}
use rafi_emu.RvTypes.{load, store}

module _ {D : Type 0} ⦃io : Io D⦄ where
  unfoldable pub pre_check_trap_rv32_load : Op → ℕ → E D (Option Trap)
  pre_check_trap_rv32_load o pc = do
    (imm, _, rs1) ← lift (get_i o.operand)
    src ← read_x32 rs1
    check_access load pc (u64 (src + imm))

  unfoldable pub pre_check_trap_rv32_load_reserved : Op → ℕ → E D (Option Trap)
  pre_check_trap_rv32_load_reserved o pc = do
    (_, rs1, _) ← lift (get_r o.operand)
    src ← read_x32 rs1
    check_access load pc src

  unfoldable pub pre_check_trap_rv32_store : Op → ℕ → E D (Option Trap)
  pre_check_trap_rv32_store o pc = do
    (imm, rs1, _) ← lift (get_s o.operand)
    src ← read_x32 rs1
    check_access store pc (u64 (src + imm))

  unfoldable pub pre_check_trap_rv32_store_conditional : Op → ℕ → E D (Option Trap)
  pre_check_trap_rv32_store_conditional o pc = do
    (_, rs1, _) ← lift (get_r o.operand)
    src ← read_x32 rs1
    check_access store pc src

  unfoldable pub pre_check_trap_rv32_atomic : Op → ℕ → E D (Option Trap)
  pre_check_trap_rv32_atomic o pc = do
    (_, rs1, _) ← lift (get_r o.operand)
    address ← read_x32 rs1
    trap ← check_access load pc address
    unless_trap trap (check_access store pc address)

  unfoldable pub pre_check_trap_rv64_load : Op → ℕ → E D (Option Trap)
  pre_check_trap_rv64_load o pc = do
    (imm, _, rs1) ← lift (get_i o.operand)
    src ← read_x64 rs1
    check_access load pc (u64 (src + imm))

  unfoldable pub pre_check_trap_rv64_load_reserved : Op → ℕ → E D (Option Trap)
  pre_check_trap_rv64_load_reserved o pc = do
    (_, rs1, _) ← lift (get_r o.operand)
    src ← read_x64 rs1
    check_access load pc src

  unfoldable pub pre_check_trap_rv64_store : Op → ℕ → E D (Option Trap)
  pre_check_trap_rv64_store o pc = do
    (imm, rs1, _) ← lift (get_s o.operand)
    src ← read_x64 rs1
    check_access store pc (u64 (src + imm))

  unfoldable pub pre_check_trap_rv64_store_conditional : Op → ℕ → E D (Option Trap)
  pre_check_trap_rv64_store_conditional o pc = do
    (_, rs1, _) ← lift (get_r o.operand)
    src ← read_x64 rs1
    check_access store pc src

  unfoldable pub pre_check_trap_rv64_atomic : Op → ℕ → E D (Option Trap)
  pre_check_trap_rv64_atomic o pc = do
    (_, rs1, _) ← lift (get_r o.operand)
    address ← read_x64 rs1
    trap ← check_access load pc address
    unless_trap trap (check_access store pc address)
