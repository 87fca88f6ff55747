-- ===== src/Decoder/Total.antt =====
-- What every decoding function of librafi_common/DecoderImpl.cpp returns.
use rafi_emu.Common.{ℕ, ◌≡◌, refl, arith, Returns, returns, Returns-if, Outcome, ◌⊎◌}
use rafi_emu.Op.{OpClass, OpCode, Op, Operand}
use rafi_emu.Decoder.Results.{with_operand}
use rafi_emu.Decoder.Operand.{pick}
use rafi_emu.Decoder.Registers.{
  RegistersFit, decode_operand_r-RegistersFit, decode_operand_r4-RegistersFit,
  decode_operand_i-RegistersFit, decode_operand_s-RegistersFit, decode_operand_b-RegistersFit,
  decode_operand_u-RegistersFit, decode_operand_j-RegistersFit,
  decode_operand_shift_imm_32-RegistersFit, decode_operand_shift_imm_64-RegistersFit,
  decode_operand_csr-RegistersFit, decode_operand_csr_imm-RegistersFit,
  decode_operand_fence-RegistersFit,
}
use rafi_emu.Decoder.RegistersC.{
  decode_operand_cr-RegistersFit, decode_operand_cr_alu-RegistersFit,
  decode_operand_ci-RegistersFit, decode_operand_ci_addi16sp-RegistersFit,
  decode_operand_ci_alu_imm-RegistersFit, decode_operand_ci_lui-RegistersFit,
  decode_operand_ciw-RegistersFit, decode_operand_cb-RegistersFit, decode_operand_cj-RegistersFit,
  decode_operand_ci_load_sp-RegistersFit4, decode_operand_ci_load_sp-RegistersFit8,
  decode_operand_css-RegistersFit4, decode_operand_css-RegistersFit8,
  decode_operand_cl-RegistersFit4, decode_operand_cl-RegistersFit8, decode_operand_cs-RegistersFit4,
  decode_operand_cs-RegistersFit8,
}
use rafi_emu.Decoder.IntegerOps.{
  decode_i_branch, decode_i_load, decode_i_store, decode_i_op_imm, decode_i_alu, decode_i_op_imm_32,
  decode_i_alu_32, decode_i_fence, decode_i_system,
}
use rafi_emu.Decoder.Integer.{decode_i_op}
use rafi_emu.Decoder.MulDiv.{decode_m_alu, decode_m_alu_32, decode_m_op}
use rafi_emu.Decoder.Atomic.{decode_a_word, decode_a_double, decode_a_op}
use rafi_emu.Decoder.Single.{
  decode_f_sign, decode_f_min_max, decode_f_to_int, decode_f_move, decode_f_compare,
  decode_f_of_int, decode_f_op_fp, decode_f_op,
}
use rafi_emu.Decoder.Double.{
  decode_d_sign, decode_d_min_max, decode_d_compare, decode_d_move, decode_d_to_int,
  decode_d_of_int, decode_d_op_fp, decode_d_op,
}
use rafi_emu.Decoder.Compressed.{
  decode_c_quadrant_0, decode_c_quadrant_1, decode_c_quadrant_2, decode_c_op,
}

-- An op of the class `c` whose register numbers are in range.
pub record IsOpOf (c : OpClass) (o : Op) : Type 0 where
  pub of_class : o.op_class ≡ c
  pub registers : RegistersFit o.operand

abbrev op_of :
    {c : OpClass} {code : OpCode} {o : Operand}
    → RegistersFit o
    → IsOpOf c (record { op_class = c; op_code = code; operand = o })
op_of h = record { of_class = refl; registers = h }

with_operand_fits :
    {c : OpClass} {o : Outcome Operand} (code : OpCode)
    → Returns RegistersFit o
    → Returns (IsOpOf c) (with_operand c code o)
with_operand_fits _ (returns h) = returns (op_of h)

ruleset fit = (
  Returns-if, returns, op_of, with_operand_fits, tt, decode_operand_r-RegistersFit,
  decode_operand_r4-RegistersFit, decode_operand_i-RegistersFit, decode_operand_s-RegistersFit,
  decode_operand_b-RegistersFit, decode_operand_u-RegistersFit, decode_operand_j-RegistersFit,
  decode_operand_shift_imm_32-RegistersFit, decode_operand_shift_imm_64-RegistersFit,
  decode_operand_csr-RegistersFit, decode_operand_csr_imm-RegistersFit,
  decode_operand_fence-RegistersFit,
)

ruleset fit_c = (
  Returns-if, returns, op_of, with_operand_fits, tt, decode_operand_cr-RegistersFit,
  decode_operand_cr_alu-RegistersFit, decode_operand_ci-RegistersFit,
  decode_operand_ci_addi16sp-RegistersFit, decode_operand_ci_alu_imm-RegistersFit,
  decode_operand_ci_lui-RegistersFit, decode_operand_ciw-RegistersFit,
  decode_operand_cb-RegistersFit, decode_operand_cj-RegistersFit,
  decode_operand_ci_load_sp-RegistersFit4, decode_operand_ci_load_sp-RegistersFit8,
  decode_operand_css-RegistersFit4, decode_operand_css-RegistersFit8,
  decode_operand_cl-RegistersFit4, decode_operand_cl-RegistersFit8, decode_operand_cs-RegistersFit4,
  decode_operand_cs-RegistersFit8,
)

pub decode_i_branch-IsOpOf : (c : OpClass) (insn : ℕ) → Returns (IsOpOf c) (decode_i_branch c insn)
unfolding decode_i_branch
decode_i_branch-IsOpOf c insn = search (fit) depth 60 fits 4000

pub decode_i_load-IsOpOf : (c : OpClass) (insn : ℕ) → Returns (IsOpOf c) (decode_i_load c insn)
unfolding decode_i_load
decode_i_load-IsOpOf c insn = search (fit) depth 60 fits 4000

pub decode_i_store-IsOpOf : (c : OpClass) (insn : ℕ) → Returns (IsOpOf c) (decode_i_store c insn)
unfolding decode_i_store
decode_i_store-IsOpOf c insn = search (fit) depth 60 fits 4000

pub decode_i_op_imm-IsOpOf : (c : OpClass) (insn : ℕ) → Returns (IsOpOf c) (decode_i_op_imm c insn)
unfolding decode_i_op_imm
decode_i_op_imm-IsOpOf c insn = search (fit) depth 60 fits 4000

pub decode_i_alu-IsOpOf : (c : OpClass) (insn : ℕ) → Returns (IsOpOf c) (decode_i_alu c insn)
unfolding decode_i_alu
decode_i_alu-IsOpOf c insn = search (fit) depth 60 fits 4000

pub decode_i_op_imm_32-IsOpOf :
    (c : OpClass) (insn : ℕ) → Returns (IsOpOf c) (decode_i_op_imm_32 c insn)
unfolding decode_i_op_imm_32
decode_i_op_imm_32-IsOpOf c insn = search (fit) depth 60 fits 4000

pub decode_i_alu_32-IsOpOf : (c : OpClass) (insn : ℕ) → Returns (IsOpOf c) (decode_i_alu_32 c insn)
unfolding decode_i_alu_32
decode_i_alu_32-IsOpOf c insn = search (fit) depth 60 fits 4000

pub decode_i_fence-IsOpOf : (c : OpClass) (insn : ℕ) → Returns (IsOpOf c) (decode_i_fence c insn)
unfolding decode_i_fence
decode_i_fence-IsOpOf c insn = search (fit) depth 60 fits 4000

pub decode_i_system-IsOpOf : (c : OpClass) (insn : ℕ) → Returns (IsOpOf c) (decode_i_system c insn)
unfolding decode_i_system
decode_i_system-IsOpOf c insn = search (fit) depth 60 fits 4000

pub decode_i_op-IsOpOf : (c : OpClass) (insn : ℕ) → Returns (IsOpOf c) (decode_i_op c insn)
unfolding decode_i_op
decode_i_op-IsOpOf c insn =
    search
      (
        fit, decode_i_branch-IsOpOf, decode_i_load-IsOpOf, decode_i_store-IsOpOf,
        decode_i_op_imm-IsOpOf, decode_i_alu-IsOpOf, decode_i_op_imm_32-IsOpOf,
        decode_i_alu_32-IsOpOf, decode_i_fence-IsOpOf, decode_i_system-IsOpOf,
      )
      depth 60 fits 4000

pub decode_m_alu-IsOpOf : (c : OpClass) (insn : ℕ) → Returns (IsOpOf c) (decode_m_alu c insn)
unfolding decode_m_alu
decode_m_alu-IsOpOf c insn = search (fit) depth 60 fits 4000

pub decode_m_alu_32-IsOpOf : (c : OpClass) (insn : ℕ) → Returns (IsOpOf c) (decode_m_alu_32 c insn)
unfolding decode_m_alu_32
decode_m_alu_32-IsOpOf c insn = search (fit) depth 60 fits 4000

pub decode_m_op-IsOpOf :
    (c : OpClass) (insn : ℕ)
    → (pick insn 0 7 ≡ 0b0110011) ⊎ (pick insn 0 7 ≡ 0b0111011)
    → Returns (IsOpOf c) (decode_m_op c insn)
unfolding decode_m_op
decode_m_op-IsOpOf c insn h =
    ground (arith, decode_m_alu-IsOpOf c insn, decode_m_alu_32-IsOpOf c insn)

pub decode_a_word-IsOpOf : (c : OpClass) (insn : ℕ) → Returns (IsOpOf c) (decode_a_word c insn)
unfolding decode_a_word
decode_a_word-IsOpOf c insn = search (fit) depth 60 fits 4000

pub decode_a_double-IsOpOf : (c : OpClass) (insn : ℕ) → Returns (IsOpOf c) (decode_a_double c insn)
unfolding decode_a_double
decode_a_double-IsOpOf c insn = search (fit) depth 60 fits 4000

pub decode_a_op-IsOpOf : (c : OpClass) (insn : ℕ) → Returns (IsOpOf c) (decode_a_op c insn)
unfolding decode_a_op
decode_a_op-IsOpOf c insn =
    search (fit, decode_a_word-IsOpOf, decode_a_double-IsOpOf) depth 60 fits 4000

pub decode_f_sign-IsOpOf : (c : OpClass) (insn : ℕ) → Returns (IsOpOf c) (decode_f_sign c insn)
unfolding decode_f_sign
decode_f_sign-IsOpOf c insn = search (fit) depth 60 fits 4000

pub decode_f_min_max-IsOpOf :
    (c : OpClass) (insn : ℕ) → Returns (IsOpOf c) (decode_f_min_max c insn)
unfolding decode_f_min_max
decode_f_min_max-IsOpOf c insn = search (fit) depth 60 fits 4000

pub decode_f_to_int-IsOpOf : (c : OpClass) (insn : ℕ) → Returns (IsOpOf c) (decode_f_to_int c insn)
unfolding decode_f_to_int
decode_f_to_int-IsOpOf c insn = search (fit) depth 60 fits 4000

pub decode_f_move-IsOpOf : (c : OpClass) (insn : ℕ) → Returns (IsOpOf c) (decode_f_move c insn)
unfolding decode_f_move
decode_f_move-IsOpOf c insn = search (fit) depth 60 fits 4000

pub decode_f_compare-IsOpOf :
    (c : OpClass) (insn : ℕ) → Returns (IsOpOf c) (decode_f_compare c insn)
unfolding decode_f_compare
decode_f_compare-IsOpOf c insn = search (fit) depth 60 fits 4000

pub decode_f_of_int-IsOpOf : (c : OpClass) (insn : ℕ) → Returns (IsOpOf c) (decode_f_of_int c insn)
unfolding decode_f_of_int
decode_f_of_int-IsOpOf c insn = search (fit) depth 60 fits 4000

pub decode_f_op_fp-IsOpOf : (c : OpClass) (insn : ℕ) → Returns (IsOpOf c) (decode_f_op_fp c insn)
unfolding decode_f_op_fp
decode_f_op_fp-IsOpOf c insn =
    search
      (
        fit, decode_f_sign-IsOpOf, decode_f_min_max-IsOpOf, decode_f_to_int-IsOpOf,
        decode_f_move-IsOpOf, decode_f_compare-IsOpOf, decode_f_of_int-IsOpOf,
      )
      depth 60 fits 4000

pub decode_f_op-IsOpOf : (c : OpClass) (insn : ℕ) → Returns (IsOpOf c) (decode_f_op c insn)
unfolding decode_f_op
decode_f_op-IsOpOf c insn = search (fit, decode_f_op_fp-IsOpOf) depth 60 fits 4000

pub decode_d_sign-IsOpOf : (c : OpClass) (insn : ℕ) → Returns (IsOpOf c) (decode_d_sign c insn)
unfolding decode_d_sign
decode_d_sign-IsOpOf c insn = search (fit) depth 60 fits 4000

pub decode_d_min_max-IsOpOf :
    (c : OpClass) (insn : ℕ) → Returns (IsOpOf c) (decode_d_min_max c insn)
unfolding decode_d_min_max
decode_d_min_max-IsOpOf c insn = search (fit) depth 60 fits 4000

pub decode_d_compare-IsOpOf :
    (c : OpClass) (insn : ℕ) → Returns (IsOpOf c) (decode_d_compare c insn)
unfolding decode_d_compare
decode_d_compare-IsOpOf c insn = search (fit) depth 60 fits 4000

pub decode_d_move-IsOpOf : (c : OpClass) (insn : ℕ) → Returns (IsOpOf c) (decode_d_move c insn)
unfolding decode_d_move
decode_d_move-IsOpOf c insn = search (fit) depth 60 fits 4000

pub decode_d_to_int-IsOpOf : (c : OpClass) (insn : ℕ) → Returns (IsOpOf c) (decode_d_to_int c insn)
unfolding decode_d_to_int
decode_d_to_int-IsOpOf c insn = search (fit) depth 60 fits 4000

pub decode_d_of_int-IsOpOf : (c : OpClass) (insn : ℕ) → Returns (IsOpOf c) (decode_d_of_int c insn)
unfolding decode_d_of_int
decode_d_of_int-IsOpOf c insn = search (fit) depth 60 fits 4000

pub decode_d_op_fp-IsOpOf : (c : OpClass) (insn : ℕ) → Returns (IsOpOf c) (decode_d_op_fp c insn)
unfolding decode_d_op_fp
decode_d_op_fp-IsOpOf c insn =
    search
      (
        fit, decode_d_sign-IsOpOf, decode_d_min_max-IsOpOf, decode_d_compare-IsOpOf,
        decode_d_move-IsOpOf, decode_d_to_int-IsOpOf, decode_d_of_int-IsOpOf,
      )
      depth 60 fits 4000

pub decode_d_op-IsOpOf : (c : OpClass) (insn : ℕ) → Returns (IsOpOf c) (decode_d_op c insn)
unfolding decode_d_op
decode_d_op-IsOpOf c insn = search (fit, decode_d_op_fp-IsOpOf) depth 60 fits 4000

pub decode_c_quadrant_0-IsOpOf :
    (c : OpClass) (insn : ℕ) → Returns (IsOpOf c) (decode_c_quadrant_0 c insn)
unfolding decode_c_quadrant_0
decode_c_quadrant_0-IsOpOf c insn = search (fit_c) depth 60 fits 4000

pub decode_c_quadrant_1-IsOpOf :
    (c : OpClass) (insn : ℕ) → Returns (IsOpOf c) (decode_c_quadrant_1 c insn)
unfolding decode_c_quadrant_1
decode_c_quadrant_1-IsOpOf c insn = search (fit_c) depth 60 fits 4000

pub decode_c_quadrant_2-IsOpOf :
    (c : OpClass) (insn : ℕ) → Returns (IsOpOf c) (decode_c_quadrant_2 c insn)
unfolding decode_c_quadrant_2
decode_c_quadrant_2-IsOpOf c insn = search (fit_c) depth 60 fits 4000

pub decode_c_op-IsOpOf : (c : OpClass) (insn : ℕ) → Returns (IsOpOf c) (decode_c_op c insn)
unfolding decode_c_op
decode_c_op-IsOpOf c insn =
    search
      (fit_c, decode_c_quadrant_0-IsOpOf, decode_c_quadrant_1-IsOpOf, decode_c_quadrant_2-IsOpOf)
      depth 60 fits 4000
