-- ===== src/Executor/PreCheckAll.antt =====
-- src/rafi-emu/cpu/Executor.cpp: `PreCheckTrap`.
use rafi_emu.Common.{ℕ, Bool, ◌||◌, if◌then◌else◌, throws, Option, none, some}
use rafi_emu.Op.{Op, OpClass, OpCode, is_class}
use rafi_emu.Bus.{Io}
use rafi_emu.Executor.Machine.{E, pure, ◌>>=◌, lift}
use rafi_emu.Trap.{Trap, make_illegal_instruction_exception}
use rafi_emu.Executor.Checks.{
  pre_check_trap_csr, pre_check_trap_csr_imm, pre_check_trap_wfi, pre_check_trap_fence,
  pre_check_trap_priv, is_fp_enabled,
}
use rafi_emu.Executor.PreCheck.{
  pre_check_trap_rv32_load, pre_check_trap_rv32_store, pre_check_trap_rv32_load_reserved,
  pre_check_trap_rv32_store_conditional, pre_check_trap_rv32_atomic, pre_check_trap_rv64_load,
  pre_check_trap_rv64_store, pre_check_trap_rv64_load_reserved,
  pre_check_trap_rv64_store_conditional, pre_check_trap_rv64_atomic,
}
use rafi_emu.Executor.PreCheckC32.{pre_check_trap_rv32c}
use rafi_emu.Executor.PreCheckC64.{pre_check_trap_rv64c}

-- `IsRV32` and `IsRV64` of librafi_common/OpApi.cpp.
unfoldable pub is_rv32 : OpClass → Bool
is_rv32 c =
    is_class c OpClass.rv32i
    || is_class c OpClass.rv32m
    || is_class c OpClass.rv32a
    || is_class c OpClass.rv32f
    || is_class c OpClass.rv32d
    || is_class c OpClass.rv32c

unfoldable pub is_rv64 : OpClass → Bool
is_rv64 c =
    is_class c OpClass.rv64i
    || is_class c OpClass.rv64m
    || is_class c OpClass.rv64a
    || is_class c OpClass.rv64f
    || is_class c OpClass.rv64d
    || is_class c OpClass.rv64c

-- The choice that the cases of `PreCheckTrap` end with.
abbrev by_size : {D A : Type 0} → OpClass → E D A → E D A → E D A
by_size c check32 check64 =
    if is_rv32 c then check32 else if is_rv64 c then check64 else lift throws

module _ {D : Type 0} ⦃io : Io D⦄ where
  unfoldable pub pre_check_trap_code : OpCode → OpClass → Op → ℕ → ℕ → E D (Option Trap)
  pre_check_trap_code OpCode.lb c o pc insn =
      by_size c (pre_check_trap_rv32_load o pc) (pre_check_trap_rv64_load o pc)
  pre_check_trap_code OpCode.lh c o pc insn =
      by_size c (pre_check_trap_rv32_load o pc) (pre_check_trap_rv64_load o pc)
  pre_check_trap_code OpCode.lw c o pc insn =
      by_size c (pre_check_trap_rv32_load o pc) (pre_check_trap_rv64_load o pc)
  pre_check_trap_code OpCode.lbu c o pc insn =
      by_size c (pre_check_trap_rv32_load o pc) (pre_check_trap_rv64_load o pc)
  pre_check_trap_code OpCode.lhu c o pc insn =
      by_size c (pre_check_trap_rv32_load o pc) (pre_check_trap_rv64_load o pc)
  pre_check_trap_code OpCode.lwu c o pc insn =
      by_size c (pre_check_trap_rv32_load o pc) (pre_check_trap_rv64_load o pc)
  pre_check_trap_code OpCode.ld c o pc insn =
      by_size c (pre_check_trap_rv32_load o pc) (pre_check_trap_rv64_load o pc)
  pre_check_trap_code OpCode.flw c o pc insn =
      by_size c (pre_check_trap_rv32_load o pc) (pre_check_trap_rv64_load o pc)
  pre_check_trap_code OpCode.fld c o pc insn =
      by_size c (pre_check_trap_rv32_load o pc) (pre_check_trap_rv64_load o pc)
  pre_check_trap_code OpCode.sb c o pc insn =
      by_size c (pre_check_trap_rv32_store o pc) (pre_check_trap_rv64_store o pc)
  pre_check_trap_code OpCode.sh c o pc insn =
      by_size c (pre_check_trap_rv32_store o pc) (pre_check_trap_rv64_store o pc)
  pre_check_trap_code OpCode.sw c o pc insn =
      by_size c (pre_check_trap_rv32_store o pc) (pre_check_trap_rv64_store o pc)
  pre_check_trap_code OpCode.sd c o pc insn =
      by_size c (pre_check_trap_rv32_store o pc) (pre_check_trap_rv64_store o pc)
  pre_check_trap_code OpCode.fsw c o pc insn =
      by_size c (pre_check_trap_rv32_store o pc) (pre_check_trap_rv64_store o pc)
  pre_check_trap_code OpCode.fsd c o pc insn =
      by_size c (pre_check_trap_rv32_store o pc) (pre_check_trap_rv64_store o pc)
  pre_check_trap_code OpCode.csrrw c o pc insn = pre_check_trap_csr o pc insn
  pre_check_trap_code OpCode.csrrs c o pc insn = pre_check_trap_csr o pc insn
  pre_check_trap_code OpCode.csrrc c o pc insn = pre_check_trap_csr o pc insn
  pre_check_trap_code OpCode.csrrwi c o pc insn = pre_check_trap_csr_imm o pc insn
  pre_check_trap_code OpCode.csrrsi c o pc insn = pre_check_trap_csr_imm o pc insn
  pre_check_trap_code OpCode.csrrci c o pc insn = pre_check_trap_csr_imm o pc insn
  pre_check_trap_code OpCode.wfi c o pc insn = pre_check_trap_wfi pc insn
  pre_check_trap_code OpCode.sfence_vma c o pc insn = pre_check_trap_fence pc insn
  pre_check_trap_code OpCode.mret c o pc insn = pre_check_trap_priv o pc insn
  pre_check_trap_code OpCode.sret c o pc insn = pre_check_trap_priv o pc insn
  pre_check_trap_code OpCode.uret c o pc insn = pre_check_trap_priv o pc insn
  pre_check_trap_code OpCode.lr_d c o pc insn =
      by_size c (pre_check_trap_rv32_load_reserved o pc) (pre_check_trap_rv64_load_reserved o pc)
  pre_check_trap_code OpCode.lr_w c o pc insn =
      by_size c (pre_check_trap_rv32_load_reserved o pc) (pre_check_trap_rv64_load_reserved o pc)
  pre_check_trap_code OpCode.sc_d c o pc insn =
      by_size c (pre_check_trap_rv32_store_conditional o pc)
        (pre_check_trap_rv64_store_conditional o pc)
  pre_check_trap_code OpCode.sc_w c o pc insn =
      by_size c (pre_check_trap_rv32_store_conditional o pc)
        (pre_check_trap_rv64_store_conditional o pc)
  pre_check_trap_code OpCode.amoswap_d c o pc insn =
      by_size c (pre_check_trap_rv32_atomic o pc) (pre_check_trap_rv64_atomic o pc)
  pre_check_trap_code OpCode.amoswap_w c o pc insn =
      by_size c (pre_check_trap_rv32_atomic o pc) (pre_check_trap_rv64_atomic o pc)
  pre_check_trap_code OpCode.amoadd_d c o pc insn =
      by_size c (pre_check_trap_rv32_atomic o pc) (pre_check_trap_rv64_atomic o pc)
  pre_check_trap_code OpCode.amoadd_w c o pc insn =
      by_size c (pre_check_trap_rv32_atomic o pc) (pre_check_trap_rv64_atomic o pc)
  pre_check_trap_code OpCode.amoxor_d c o pc insn =
      by_size c (pre_check_trap_rv32_atomic o pc) (pre_check_trap_rv64_atomic o pc)
  pre_check_trap_code OpCode.amoxor_w c o pc insn =
      by_size c (pre_check_trap_rv32_atomic o pc) (pre_check_trap_rv64_atomic o pc)
  pre_check_trap_code OpCode.amoand_d c o pc insn =
      by_size c (pre_check_trap_rv32_atomic o pc) (pre_check_trap_rv64_atomic o pc)
  pre_check_trap_code OpCode.amoand_w c o pc insn =
      by_size c (pre_check_trap_rv32_atomic o pc) (pre_check_trap_rv64_atomic o pc)
  pre_check_trap_code OpCode.amoor_d c o pc insn =
      by_size c (pre_check_trap_rv32_atomic o pc) (pre_check_trap_rv64_atomic o pc)
  pre_check_trap_code OpCode.amoor_w c o pc insn =
      by_size c (pre_check_trap_rv32_atomic o pc) (pre_check_trap_rv64_atomic o pc)
  pre_check_trap_code OpCode.amomax_d c o pc insn =
      by_size c (pre_check_trap_rv32_atomic o pc) (pre_check_trap_rv64_atomic o pc)
  pre_check_trap_code OpCode.amomax_w c o pc insn =
      by_size c (pre_check_trap_rv32_atomic o pc) (pre_check_trap_rv64_atomic o pc)
  pre_check_trap_code OpCode.amomin_d c o pc insn =
      by_size c (pre_check_trap_rv32_atomic o pc) (pre_check_trap_rv64_atomic o pc)
  pre_check_trap_code OpCode.amomin_w c o pc insn =
      by_size c (pre_check_trap_rv32_atomic o pc) (pre_check_trap_rv64_atomic o pc)
  pre_check_trap_code OpCode.amomaxu_d c o pc insn =
      by_size c (pre_check_trap_rv32_atomic o pc) (pre_check_trap_rv64_atomic o pc)
  pre_check_trap_code OpCode.amomaxu_w c o pc insn =
      by_size c (pre_check_trap_rv32_atomic o pc) (pre_check_trap_rv64_atomic o pc)
  pre_check_trap_code OpCode.amominu_d c o pc insn =
      by_size c (pre_check_trap_rv32_atomic o pc) (pre_check_trap_rv64_atomic o pc)
  pre_check_trap_code OpCode.amominu_w c o pc insn =
      by_size c (pre_check_trap_rv32_atomic o pc) (pre_check_trap_rv64_atomic o pc)
  pre_check_trap_code _ c o pc insn = pure none

  unfoldable pub pre_check_trap_fp : Op → ℕ → ℕ → E D (Option Trap)
  pre_check_trap_fp o pc insn = is_fp_enabled >>= λ enabled.
      if enabled
      then pre_check_trap_code o.op_code o.op_class o pc insn
      else pure (some (make_illegal_instruction_exception pc insn))

  unfoldable pub pre_check_trap_class : OpClass → Op → ℕ → ℕ → E D (Option Trap)
  pre_check_trap_class OpClass.rv32c o pc insn = pre_check_trap_rv32c o pc
  pre_check_trap_class OpClass.rv64c o pc insn = pre_check_trap_rv64c o pc
  pre_check_trap_class OpClass.rv32f o pc insn = pre_check_trap_fp o pc insn
  pre_check_trap_class OpClass.rv32d o pc insn = pre_check_trap_fp o pc insn
  pre_check_trap_class OpClass.rv64f o pc insn = pre_check_trap_fp o pc insn
  pre_check_trap_class OpClass.rv64d o pc insn = pre_check_trap_fp o pc insn
  pre_check_trap_class _ o pc insn = pre_check_trap_code o.op_code o.op_class o pc insn

  unfoldable pub pre_check_trap : Op → ℕ → ℕ → E D (Option Trap)
  pre_check_trap o pc insn = pre_check_trap_class o.op_class o pc insn
