-- ===== src/Op.antt =====
-- include/rafi/common/OpTypes.h: a decoded instruction. An immediate is the bits of its `int64_t`.
use rafi_emu.Common.{ℕ, Bool, ◌==◌}

pub data OpClass : Type 0 where
  rv32i rv32m rv32a rv32f rv32d rv32c : OpClass
  rv64i rv64m rv64a rv64f rv64d rv64c : OpClass

-- The place in the enumeration.
abbrev pub class_code : OpClass → ℕ
class_code OpClass.rv32i = 0
class_code OpClass.rv32m = 1
class_code OpClass.rv32a = 2
class_code OpClass.rv32f = 3
class_code OpClass.rv32d = 4
class_code OpClass.rv32c = 5
class_code OpClass.rv64i = 6
class_code OpClass.rv64m = 7
class_code OpClass.rv64a = 8
class_code OpClass.rv64f = 9
class_code OpClass.rv64d = 10
class_code OpClass.rv64c = 11

abbrev pub is_class : OpClass → OpClass → Bool
is_class a b = class_code a == class_code b

pub data OpCode : Type 0 where
  unknown : OpCode
  lui auipc jal jalr beq bne blt bge bltu bgeu lb lh lw ld lbu lhu lwu sb sh sw sd addi : OpCode
  addiw slti sltiu xori ori andi slli slliw srli srliw srai sraiw add addw sub subw sll : OpCode
  sllw slt sltu xor_ srl srlw sra sraw or_ and_ fence fence_i ecall ebreak csrrw csrrs : OpCode
  csrrc csrrwi csrrsi csrrci mret sret uret wfi sfence_vma : OpCode
  mul mulw mulh mulhsu mulhu div divw divu divuw rem remw remu remuw : OpCode
  lr_w lr_d sc_w sc_d amoswap_w amoswap_d amoadd_w amoadd_d amoxor_w amoxor_d amoand_w : OpCode
  amoand_d amoor_w amoor_d amomin_w amomin_d amomax_w amomax_d amominu_w amominu_d : OpCode
  amomaxu_w amomaxu_d : OpCode
  flw fsw fmadd_s fmsub_s fnmsub_s fnmadd_s fadd_s fsub_s fmul_s fdiv_s fsqrt_s fsgnj_s : OpCode
  fsgnjn_s fsgnjx_s fmin_s fmax_s fcvt_w_s fcvt_wu_s fmv_x_w feq_s flt_s fle_s fclass_s : OpCode
  fcvt_l_s fcvt_lu_s fcvt_s_w fcvt_s_l fcvt_s_wu fcvt_s_lu fmv_w_x : OpCode
  fld fsd fmadd_d fmsub_d fnmsub_d fnmadd_d fadd_d fsub_d fmul_d fdiv_d fsqrt_d fsgnj_d : OpCode
  fsgnjn_d fsgnjx_d fmin_d fmax_d fmv_d_x fmv_x_d feq_d flt_d fle_d fclass_d fcvt_s_d : OpCode
  fcvt_w_d fcvt_wu_d fcvt_l_d fcvt_lu_d fcvt_d_s fcvt_d_w fcvt_d_wu fcvt_d_l fcvt_d_lu : OpCode
  c_addi4spn c_fld c_lq c_lw c_flw c_ld c_fsd c_sq c_sw c_fsw c_sd c_nop c_addi c_jal : OpCode
  c_addiw c_li c_addi16sp c_lui c_srli c_srli64 c_srai c_srai64 c_andi c_sub c_xor c_or : OpCode
  c_and c_subw c_addw c_j c_beqz c_bnez c_slli c_slli64 c_fldsp c_lqsp c_lwsp c_flwsp : OpCode
  c_ldsp c_jr c_mv c_ebreak c_jalr c_add c_fsdsp c_sqsp c_swsp c_fswsp c_sdsp : OpCode

-- The alternatives of the variant, with the members of their structs in order.
pub data Operand : Type 0 where
  operand_r : (rd rs1 rs2 funct3 funct7 : ℕ) → Operand
  operand_r4 : (rd rs1 rs2 rs3 funct3 funct2 : ℕ) → Operand
  operand_i : (imm rd rs1 funct3 : ℕ) → Operand
  operand_s operand_b : (imm rs1 rs2 funct3 : ℕ) → Operand
  operand_u operand_j : (imm rd : ℕ) → Operand
  operand_shift_imm : (rd rs1 shamt : ℕ) → Operand
  operand_csr : (rd rs1 csr : ℕ) → Operand
  operand_csr_imm : (zimm rd csr : ℕ) → Operand
  operand_fence : (pred succ : ℕ) → Operand
  operand_cr : (rd rs1 rs2 : ℕ) → Operand
  operand_ci : (imm rd rs1 : ℕ) → Operand
  operand_css : (imm rs2 : ℕ) → Operand
  operand_ciw : (imm rd : ℕ) → Operand
  operand_cl : (imm rd rs1 : ℕ) → Operand
  operand_cs : (imm rs1 rs2 : ℕ) → Operand
  operand_cb : (imm rs1 : ℕ) → Operand
  operand_cj : (imm : ℕ) → Operand
  operand_none : Operand

pub record Op : Type 0 where
  pub op_class : OpClass
  pub op_code : OpCode
  pub operand : Operand

abbrev pub op : OpClass → OpCode → Operand → Op
op c code o = record { op_class = c; op_code = code; operand = o }
