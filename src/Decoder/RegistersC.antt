-- ===== src/Decoder/RegistersC.antt =====
-- The register numbers that the compressed operands of librafi_common/DecoderImpl.cpp hold.
use rafi_emu.Common.{ℕ, ◌+◌, ◌<◌, arith, Bool, Returns, returns}
use rafi_emu.Decoder.Registers.{RegistersFit, pick_lt}
use rafi_emu.Decoder.Operand.{pick}
use rafi_emu.Decoder.OperandC.{
  decode_operand_cr, decode_operand_cr_alu, decode_operand_ci, decode_operand_ci_addi16sp,
  decode_operand_ci_alu_imm, decode_operand_ci_load_sp, decode_operand_ci_lui, decode_operand_css,
  decode_operand_ciw, decode_operand_cl, decode_operand_cs, decode_operand_cb, decode_operand_cj,
  imm_cl,
}

-- The three bits of a register of the compressed set name one of x8 to x15.
upper_lt : (insn lsb : ℕ) → pick insn lsb 3 + 8 < 32
upper_lt insn lsb = omega (arith, pick_lt 3 insn lsb)

pub decode_operand_cr-RegistersFit : (insn : ℕ) → RegistersFit (decode_operand_cr insn)
unfolding decode_operand_cr
decode_operand_cr-RegistersFit insn = (pick_lt 5 insn 7, pick_lt 5 insn 7, pick_lt 5 insn 2)

pub decode_operand_cr_alu-RegistersFit : (insn : ℕ) → RegistersFit (decode_operand_cr_alu insn)
unfolding decode_operand_cr_alu
decode_operand_cr_alu-RegistersFit insn = (upper_lt insn 7, upper_lt insn 7, upper_lt insn 2)

pub decode_operand_ci-RegistersFit : (insn : ℕ) (b : Bool) → RegistersFit (decode_operand_ci insn b)
unfolding decode_operand_ci
decode_operand_ci-RegistersFit insn b = (pick_lt 5 insn 7, pick_lt 5 insn 7)

pub decode_operand_ci_addi16sp-RegistersFit :
    (insn : ℕ) → RegistersFit (decode_operand_ci_addi16sp insn)
unfolding decode_operand_ci_addi16sp
decode_operand_ci_addi16sp-RegistersFit insn = (pick_lt 5 insn 7, pick_lt 5 insn 7)

pub decode_operand_ci_alu_imm-RegistersFit :
    (insn : ℕ) (b : Bool) → RegistersFit (decode_operand_ci_alu_imm insn b)
unfolding decode_operand_ci_alu_imm
decode_operand_ci_alu_imm-RegistersFit insn b = (upper_lt insn 7, upper_lt insn 7)

pub decode_operand_ci_lui-RegistersFit : (insn : ℕ) → RegistersFit (decode_operand_ci_lui insn)
unfolding decode_operand_ci_lui
decode_operand_ci_lui-RegistersFit insn = (pick_lt 5 insn 7, pick_lt 5 insn 7)

pub decode_operand_cj-RegistersFit : (insn : ℕ) → RegistersFit (decode_operand_cj insn)
unfolding decode_operand_cj
decode_operand_cj-RegistersFit insn = tt

pub decode_operand_ciw-RegistersFit : (insn : ℕ) → RegistersFit (decode_operand_ciw insn)
unfolding decode_operand_ciw
decode_operand_ciw-RegistersFit insn = upper_lt insn 2

pub decode_operand_cb-RegistersFit : (insn : ℕ) → RegistersFit (decode_operand_cb insn)
unfolding decode_operand_cb
decode_operand_cb-RegistersFit insn = upper_lt insn 7

pub decode_operand_ci_load_sp-RegistersFit4 :
    (insn : ℕ) → Returns RegistersFit (decode_operand_ci_load_sp insn 4)
unfolding decode_operand_ci_load_sp
decode_operand_ci_load_sp-RegistersFit4 insn = returns (pick_lt 5 insn 7, pick_lt 5 insn 7)

pub decode_operand_ci_load_sp-RegistersFit8 :
    (insn : ℕ) → Returns RegistersFit (decode_operand_ci_load_sp insn 8)
unfolding decode_operand_ci_load_sp
decode_operand_ci_load_sp-RegistersFit8 insn = returns (pick_lt 5 insn 7, pick_lt 5 insn 7)

pub decode_operand_css-RegistersFit4 : (insn : ℕ) → Returns RegistersFit (decode_operand_css insn 4)
unfolding decode_operand_css
decode_operand_css-RegistersFit4 insn = returns (pick_lt 5 insn 2)

pub decode_operand_css-RegistersFit8 : (insn : ℕ) → Returns RegistersFit (decode_operand_css insn 8)
unfolding decode_operand_css
decode_operand_css-RegistersFit8 insn = returns (pick_lt 5 insn 2)

pub decode_operand_cl-RegistersFit4 : (insn : ℕ) → Returns RegistersFit (decode_operand_cl insn 4)
unfolding decode_operand_cl imm_cl
decode_operand_cl-RegistersFit4 insn = returns (upper_lt insn 2, upper_lt insn 7)

pub decode_operand_cl-RegistersFit8 : (insn : ℕ) → Returns RegistersFit (decode_operand_cl insn 8)
unfolding decode_operand_cl imm_cl
decode_operand_cl-RegistersFit8 insn = returns (upper_lt insn 2, upper_lt insn 7)

pub decode_operand_cs-RegistersFit4 : (insn : ℕ) → Returns RegistersFit (decode_operand_cs insn 4)
unfolding decode_operand_cs imm_cl
decode_operand_cs-RegistersFit4 insn = returns (upper_lt insn 7, upper_lt insn 2)

pub decode_operand_cs-RegistersFit8 : (insn : ℕ) → Returns RegistersFit (decode_operand_cs insn 8)
unfolding decode_operand_cs imm_cl
decode_operand_cs-RegistersFit8 insn = returns (upper_lt insn 7, upper_lt insn 2)
