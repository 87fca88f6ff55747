-- ===== src/Decoder/OperandC.antt =====
-- src/librafi_common/DecoderImpl.cpp: the operands of the compressed formats.
use rafi_emu.Common.{ℕ, ◌+◌, Bool, ◌==◌, if◌then◌else◌, Outcome, ok, throws, ◌>>=◌}
use rafi_emu.Word.{sign_extend, zero_extend}
use rafi_emu.Op.{
  Operand, operand_cr, operand_ci, operand_css, operand_ciw, operand_cl, operand_cs, operand_cb,
  operand_cj,
}
use rafi_emu.Decoder.Operand.{pick, ◌<<◌, ◌|||◌}

unfoldable pub decode_operand_cr : ℕ → Operand
decode_operand_cr insn = operand_cr (pick insn 7 5) (pick insn 7 5) (pick insn 2 5)

unfoldable pub decode_operand_cr_alu : ℕ → Operand
decode_operand_cr_alu insn = operand_cr (pick insn 7 3 + 8) (pick insn 7 3 + 8) (pick insn 2 3 + 8)

-- The immediate of `DecodeOperandCI` and of `DecodeOperandCI_AluImm`.
unfoldable pub imm_ci : ℕ → Bool → ℕ
imm_ci insn imm_signed =
    if imm_signed
    then sign_extend 64 6 (pick insn 12 1 << 5 ||| pick insn 2 5)
    else zero_extend 6 (pick insn 12 1 << 5 ||| pick insn 2 5)

unfoldable pub decode_operand_ci : ℕ → Bool → Operand
decode_operand_ci insn imm_signed =
    operand_ci (imm_ci insn imm_signed) (pick insn 7 5) (pick insn 7 5)

unfoldable pub decode_operand_ci_addi16sp : ℕ → Operand
decode_operand_ci_addi16sp insn =
    operand_ci
      (sign_extend 64 10 (
        pick insn 12 1 << 9
        ||| pick insn 6 1 << 4
        ||| pick insn 5 1 << 6
        ||| pick insn 3 2 << 7
        ||| pick insn 2 1 << 5))
      (pick insn 7 5) (pick insn 7 5)

unfoldable pub decode_operand_ci_alu_imm : ℕ → Bool → Operand
decode_operand_ci_alu_imm insn imm_signed =
    operand_ci (imm_ci insn imm_signed) (pick insn 7 3 + 8) (pick insn 7 3 + 8)

unfoldable pub decode_operand_ci_load_sp : ℕ → ℕ → Outcome Operand
decode_operand_ci_load_sp insn access_size =
    if access_size == 4
    then ok (
        operand_ci
          (zero_extend 8 (pick insn 12 1 << 5 ||| pick insn 4 3 << 2 ||| pick insn 2 2 << 6))
          (pick insn 7 5) (pick insn 7 5))
    else if access_size == 8
    then ok (
        operand_ci
          (zero_extend 9 (pick insn 12 1 << 5 ||| pick insn 5 2 << 3 ||| pick insn 2 3 << 6))
          (pick insn 7 5) (pick insn 7 5))
    else if access_size == 16
    then ok (
        operand_ci
          (zero_extend 10 (pick insn 12 1 << 5 ||| pick insn 6 1 << 4 ||| pick insn 2 4 << 6))
          (pick insn 7 5) (pick insn 7 5))
    else throws

unfoldable pub decode_operand_ci_lui : ℕ → Operand
decode_operand_ci_lui insn =
    operand_ci (sign_extend 64 18 (pick insn 12 1 << 17 ||| pick insn 2 5 << 12)) (pick insn 7 5)
      (pick insn 7 5)

unfoldable pub decode_operand_css : ℕ → ℕ → Outcome Operand
decode_operand_css insn access_size =
    if access_size == 4
    then ok
        (operand_css (zero_extend 8 (pick insn 9 4 << 2 ||| pick insn 7 2 << 6)) (pick insn 2 5))
    else if access_size == 8
    then ok
        (operand_css (zero_extend 9 (pick insn 10 3 << 3 ||| pick insn 7 3 << 6)) (pick insn 2 5))
    else if access_size == 16
    then ok
        (operand_css (zero_extend 10 (pick insn 11 2 << 4 ||| pick insn 7 4 << 6)) (pick insn 2 5))
    else throws

unfoldable pub decode_operand_ciw : ℕ → Operand
decode_operand_ciw insn =
    operand_ciw
      (zero_extend 10
        (pick insn 11 2 << 4 ||| pick insn 7 4 << 6 ||| pick insn 6 1 << 2 ||| pick insn 5 1 << 3))
      (pick insn 2 3 + 8)

-- The immediate of `DecodeOperandCL` and of `DecodeOperandCS`.
unfoldable pub imm_cl : ℕ → ℕ → Outcome ℕ
imm_cl insn access_size =
    if access_size == 4
    then ok (zero_extend 7 (pick insn 10 3 << 3 ||| pick insn 6 1 << 2 ||| pick insn 5 1 << 6))
    else if access_size == 8
    then ok (zero_extend 8 (pick insn 10 3 << 3 ||| pick insn 5 2 << 6))
    else if access_size == 16
    then ok (zero_extend 9 (pick insn 11 2 << 4 ||| pick insn 10 1 << 8 ||| pick insn 5 2 << 6))
    else throws

unfoldable pub decode_operand_cl : ℕ → ℕ → Outcome Operand
decode_operand_cl insn access_size = do
  imm ← imm_cl insn access_size
  ok (operand_cl imm (pick insn 2 3 + 8) (pick insn 7 3 + 8))

unfoldable pub decode_operand_cs : ℕ → ℕ → Outcome Operand
decode_operand_cs insn access_size = do
  imm ← imm_cl insn access_size
  ok (operand_cs imm (pick insn 7 3 + 8) (pick insn 2 3 + 8))

unfoldable pub decode_operand_cb : ℕ → Operand
decode_operand_cb insn =
    operand_cb
      (sign_extend 64 9 (
        pick insn 12 1 << 8
        ||| pick insn 10 2 << 3
        ||| pick insn 5 2 << 6
        ||| pick insn 3 2 << 1
        ||| pick insn 2 1 << 5))
      (pick insn 7 3 + 8)

unfoldable pub decode_operand_cj : ℕ → Operand
decode_operand_cj insn = operand_cj (
    sign_extend 64 12 (
      pick insn 12 1 << 11
      ||| pick insn 11 1 << 4
      ||| pick insn 9 2 << 8
      ||| pick insn 8 1 << 10
      ||| pick insn 7 1 << 6
      ||| pick insn 6 1 << 7
      ||| pick insn 3 3 << 1
      ||| pick insn 2 1 << 5))
