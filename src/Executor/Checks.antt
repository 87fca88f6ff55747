-- ===== src/Executor/Checks.antt =====
-- src/rafi-emu/cpu/Executor.cpp: the checks of privileged instructions before they are executed, and the
-- traps of ECALL and EBREAK afterwards.
use rafi_emu.Common.{
  ℕ, Bool, ◌==◌, not, ◌&&◌, ◌||◌, if◌then◌else◌, Outcome, ok, throws, Option, none, some, true,
  is_set, false,
}
use rafi_emu.Op.{Op, OpCode}
use rafi_emu.Executor.Machine.{E, pure, ◌>>=◌, lift, get_csr}
use rafi_emu.Executor.Operands.{get_csr_operand, get_csr_imm}
use rafi_emu.BitField.{get_member}
use rafi_emu.RvTypes.{PrivilegeLevel, machine, supervisor, user, reserved}
use rafi_emu.RvCsr.Status
use rafi_emu.Csr.{read_status}
use rafi_emu.Csr.Check.{check_trap}
use rafi_emu.Trap.{
  Trap, make_illegal_instruction_exception, make_environment_call_from_machine_exception,
  make_environment_call_from_supervisor_exception, make_environment_call_from_user_exception,
  make_breakpoint_exception,
}

unfoldable pub is_user : PrivilegeLevel → Bool
is_user user = true
is_user _ = false

unfoldable pub is_supervisor : PrivilegeLevel → Bool
is_supervisor supervisor = true
is_supervisor _ = false

-- `op.opCode == OpCode::csrrs`, and so on, for the codes that the checks below compare with.
abbrev pub writes_csr : OpCode → ℕ → Bool
writes_csr OpCode.csrrs rs1 = not (rs1 == 0)
writes_csr OpCode.csrrc rs1 = not (rs1 == 0)
writes_csr OpCode.csrrw rs1 = true
writes_csr _ rs1 = false

abbrev pub writes_csr_imm : OpCode → ℕ → Bool
writes_csr_imm OpCode.csrrsi zimm = not (zimm == 0)
writes_csr_imm OpCode.csrrci zimm = not (zimm == 0)
writes_csr_imm OpCode.csrrwi zimm = true
writes_csr_imm _ zimm = false

-- `priv == User || (priv == Supervisor && status.GetMember<M>())`
unfoldable pub forbidden : PrivilegeLevel → Bool → Bool
forbidden priv bit = is_user priv || (is_supervisor priv && bit)

unfoldable pub illegal_if : Bool → ℕ → ℕ → Option Trap
illegal_if b pc insn = if b then some (make_illegal_instruction_exception pc insn) else none

-- The conditions of `PreCheckTrap_Priv`, by the op code.
unfoldable pub return_forbidden : OpCode → PrivilegeLevel → ℕ → Bool
return_forbidden OpCode.mret priv status = is_user priv || is_supervisor priv
return_forbidden OpCode.sret priv status = forbidden priv (is_set (get_member Status.tsr status))
return_forbidden _ priv status = false

-- The switch of `PostCheckTrapForEcall`.
unfoldable pub environment_call : PrivilegeLevel → ℕ → Outcome (Option Trap)
environment_call machine pc = ok (some (make_environment_call_from_machine_exception pc))
environment_call supervisor pc = ok (some (make_environment_call_from_supervisor_exception pc))
environment_call user pc = ok (some (make_environment_call_from_user_exception pc))
environment_call reserved pc = throws

module _ {D : Type 0} where
  unfoldable pub pre_check_trap_csr : Op → ℕ → ℕ → E D (Option Trap)
  pre_check_trap_csr o pc insn = do
    (_, rs1, csr) ← lift (get_csr_operand o.operand)
    c ← get_csr
    lift (check_trap c csr (writes_csr o.op_code rs1) pc insn)

  unfoldable pub pre_check_trap_csr_imm : Op → ℕ → ℕ → E D (Option Trap)
  pre_check_trap_csr_imm o pc insn = do
    (zimm, _, csr) ← lift (get_csr_imm o.operand)
    c ← get_csr
    lift (check_trap c csr (writes_csr_imm o.op_code zimm) pc insn)

  unfoldable pub pre_check_trap_wfi : ℕ → ℕ → E D (Option Trap)
  pre_check_trap_wfi pc insn = do
    c ← get_csr
    status ← lift (read_status c)
    pure (illegal_if (forbidden c.privilege_level (is_set (get_member Status.tw status))) pc insn)

  unfoldable pub pre_check_trap_fence : ℕ → ℕ → E D (Option Trap)
  pre_check_trap_fence pc insn = do
    c ← get_csr
    status ← lift (read_status c)
    pure (illegal_if (forbidden c.privilege_level (is_set (get_member Status.tvm status))) pc insn)

  unfoldable pub pre_check_trap_priv : Op → ℕ → ℕ → E D (Option Trap)
  pre_check_trap_priv o pc insn = do
    c ← get_csr
    status ← lift (read_status c)
    pure (illegal_if (return_forbidden o.op_code c.privilege_level status) pc insn)

  unfoldable pub is_fp_enabled : E D Bool
  is_fp_enabled = do
    c ← get_csr
    status ← lift (read_status c)
    pure (not (get_member Status.fs status == 0))

  unfoldable pub post_check_trap_for_ecall : ℕ → E D (Option Trap)
  post_check_trap_for_ecall pc = do c ← get_csr; lift (environment_call c.privilege_level pc)

  unfoldable pub post_check_trap_code : OpCode → ℕ → E D (Option Trap)
  post_check_trap_code OpCode.ecall pc = post_check_trap_for_ecall pc
  post_check_trap_code OpCode.ebreak pc = pure (some (make_breakpoint_exception pc))
  post_check_trap_code _ pc = pure none

  unfoldable pub post_check_trap : Op → ℕ → E D (Option Trap)
  post_check_trap o pc = post_check_trap_code o.op_code pc
