-- ===== src/Decoder/Operand.antt =====
-- src/librafi_common/DecoderImpl.cpp: `Pick`, and the operands of the 32-bit formats.
use rafi_emu.Common.{ℕ, ◌-◌, ◌*◌, ◌/◌, ◌^◌, bit_and, bit_or}
use rafi_emu.Word.{sign_extend, sext32}
use rafi_emu.Op.{
  Operand, operand_r, operand_r4, operand_i, operand_s, operand_b, operand_u, operand_j,
  operand_shift_imm, operand_csr, operand_csr_imm, operand_fence,
}

-- `Pick(insn, lsb, width)`
unfoldable pub pick : ℕ → ℕ → ℕ → ℕ
pick insn lsb width = bit_and (insn / 2 ^ lsb) (2 ^ width - 1)

-- `x << n`, for fields whose bits stay in the 32 of an `int`.
infixl 45 ◌<<◌
abbrev pub ◌<<◌ : ℕ → ℕ → ℕ
x << n = x * 2 ^ n

infixl 40 ◌|||◌
abbrev pub ◌|||◌ : ℕ → ℕ → ℕ
x ||| y = bit_or x y

unfoldable pub decode_operand_r : ℕ → Operand
unfolding pick
decode_operand_r insn =
    operand_r (pick insn 7 5) (pick insn 15 5) (pick insn 20 5) (pick insn 12 3) (pick insn 25 5)

unfoldable pub decode_operand_r4 : ℕ → Operand
unfolding pick
decode_operand_r4 insn =
    operand_r4 (pick insn 7 5) (pick insn 15 5) (pick insn 20 5) (pick insn 27 5) (pick insn 12 3)
      (pick insn 25 2)

unfoldable pub decode_operand_i : ℕ → Operand
decode_operand_i insn =
    operand_i (sign_extend 64 12 (pick insn 20 12)) (pick insn 7 5) (pick insn 15 5)
      (pick insn 12 3)

unfoldable pub decode_operand_s : ℕ → Operand
decode_operand_s insn =
    operand_s (sign_extend 64 12 (pick insn 25 7 << 5 ||| pick insn 7 5)) (pick insn 15 5)
      (pick insn 20 5) (pick insn 12 3)

unfoldable pub decode_operand_b : ℕ → Operand
decode_operand_b insn =
    operand_b
      (sign_extend 64 13 (
        pick insn 31 1 << 12
        ||| pick insn 25 6 << 5
        ||| pick insn 8 4 << 1
        ||| pick insn 7 1 << 11))
      (pick insn 15 5) (pick insn 20 5) (pick insn 12 3)

-- The field reaches the sign bit of its `int`, which the conversion to `int64_t` copies.
unfoldable pub decode_operand_u : ℕ → Operand
decode_operand_u insn =
    operand_u (sign_extend 64 32 (sext32 (pick insn 12 20 << 12))) (pick insn 7 5)

unfoldable pub decode_operand_j : ℕ → Operand
decode_operand_j insn =
    operand_j
      (sign_extend 64 21 (
        pick insn 31 1 << 20
        ||| pick insn 21 10 << 1
        ||| pick insn 20 1 << 11
        ||| pick insn 12 8 << 12))
      (pick insn 7 5)

unfoldable pub decode_operand_shift_imm_32 : ℕ → Operand
decode_operand_shift_imm_32 insn =
    operand_shift_imm (pick insn 7 5) (pick insn 15 5) (pick insn 20 5)

unfoldable pub decode_operand_shift_imm_64 : ℕ → Operand
decode_operand_shift_imm_64 insn =
    operand_shift_imm (pick insn 7 5) (pick insn 15 5) (pick insn 20 6)

unfoldable pub decode_operand_csr : ℕ → Operand
decode_operand_csr insn = operand_csr (pick insn 7 5) (pick insn 15 5) (pick insn 20 12)

unfoldable pub decode_operand_csr_imm : ℕ → Operand
decode_operand_csr_imm insn = operand_csr_imm (pick insn 15 5) (pick insn 7 5) (pick insn 20 12)

unfoldable pub decode_operand_fence : ℕ → Operand
decode_operand_fence insn = operand_fence (pick insn 24 4) (pick insn 20 4)
