-- ===== src/Decoder/Registers.antt =====
-- The register numbers that the operands of librafi_common/DecoderImpl.cpp hold.
use rafi_emu.Common.{ℕ, ◌/◌, ◌%◌, ◌^◌, ◌<◌, ◌≡◌, arith}
use native.Mathlib.Nat.{mod-lt}
use rafi_emu.Bits.Fields.{bit_and_mask, pow-pos}
use rafi_emu.Op.{
  Operand, operand_r, operand_r4, operand_i, operand_s, operand_b, operand_u, operand_j,
  operand_shift_imm, operand_csr, operand_csr_imm, operand_fence, operand_cr, operand_ci,
  operand_css, operand_ciw, operand_cl, operand_cs, operand_cb, operand_cj, operand_none,
}
use rafi_emu.Decoder.Operand.{
  pick, decode_operand_r, decode_operand_r4, decode_operand_i, decode_operand_s, decode_operand_b,
  decode_operand_u, decode_operand_j, decode_operand_shift_imm_32, decode_operand_shift_imm_64,
  decode_operand_csr, decode_operand_csr_imm, decode_operand_fence,
}

-- Register numbers below 32.
abbrev pub RegistersFit : Operand → Type 0
RegistersFit (operand_r rd rs1 rs2 _ _) = (rd < 32) × (rs1 < 32) × (rs2 < 32)
RegistersFit (operand_r4 rd rs1 rs2 rs3 _ _) = (rd < 32) × (rs1 < 32) × (rs2 < 32) × (rs3 < 32)
RegistersFit (operand_i _ rd rs1 _) = (rd < 32) × (rs1 < 32)
RegistersFit (operand_s _ rs1 rs2 _) = (rs1 < 32) × (rs2 < 32)
RegistersFit (operand_b _ rs1 rs2 _) = (rs1 < 32) × (rs2 < 32)
RegistersFit (operand_u _ rd) = rd < 32
RegistersFit (operand_j _ rd) = rd < 32
RegistersFit (operand_shift_imm rd rs1 shamt) = (rd < 32) × (rs1 < 32) × (shamt < 64)
RegistersFit (operand_csr rd rs1 csr) = (rd < 32) × (rs1 < 32) × (csr < 4096)
RegistersFit (operand_csr_imm zimm rd csr) = (zimm < 32) × (rd < 32) × (csr < 4096)
RegistersFit (operand_fence _ _) = Unit
RegistersFit (operand_cr rd rs1 rs2) = (rd < 32) × (rs1 < 32) × (rs2 < 32)
RegistersFit (operand_ci _ rd rs1) = (rd < 32) × (rs1 < 32)
RegistersFit (operand_css _ rs2) = rs2 < 32
RegistersFit (operand_ciw _ rd) = rd < 32
RegistersFit (operand_cl _ rd rs1) = (rd < 32) × (rs1 < 32)
RegistersFit (operand_cs _ rs1 rs2) = (rs1 < 32) × (rs2 < 32)
RegistersFit (operand_cb _ rs1) = rs1 < 32
RegistersFit (operand_cj _) = Unit
RegistersFit operand_none = Unit

pub pick-mod : (insn lsb width : ℕ) → pick insn lsb width ≡ insn / 2 ^ lsb % 2 ^ width
unfolding pick
pick-mod insn lsb width = bit_and_mask width (insn / 2 ^ lsb)

-- A field is narrower than its width says.
pub pick_lt : (width insn lsb : ℕ) → pick insn lsb width < 2 ^ width
pick_lt width insn lsb = rw pick-mod (mod-lt _ (pow-pos width))

pub decode_operand_r-RegistersFit : (insn : ℕ) → RegistersFit (decode_operand_r insn)
unfolding decode_operand_r
decode_operand_r-RegistersFit insn = (pick_lt 5 insn 7, pick_lt 5 insn 15, pick_lt 5 insn 20)

pub decode_operand_r4-RegistersFit : (insn : ℕ) → RegistersFit (decode_operand_r4 insn)
unfolding decode_operand_r4
decode_operand_r4-RegistersFit insn =
    (pick_lt 5 insn 7, pick_lt 5 insn 15, pick_lt 5 insn 20, pick_lt 5 insn 27)

pub decode_operand_i-RegistersFit : (insn : ℕ) → RegistersFit (decode_operand_i insn)
unfolding decode_operand_i
decode_operand_i-RegistersFit insn = (pick_lt 5 insn 7, pick_lt 5 insn 15)

pub decode_operand_s-RegistersFit : (insn : ℕ) → RegistersFit (decode_operand_s insn)
unfolding decode_operand_s
decode_operand_s-RegistersFit insn = (pick_lt 5 insn 15, pick_lt 5 insn 20)

pub decode_operand_b-RegistersFit : (insn : ℕ) → RegistersFit (decode_operand_b insn)
unfolding decode_operand_b
decode_operand_b-RegistersFit insn = (pick_lt 5 insn 15, pick_lt 5 insn 20)

pub decode_operand_u-RegistersFit : (insn : ℕ) → RegistersFit (decode_operand_u insn)
unfolding decode_operand_u
decode_operand_u-RegistersFit insn = pick_lt 5 insn 7

pub decode_operand_j-RegistersFit : (insn : ℕ) → RegistersFit (decode_operand_j insn)
unfolding decode_operand_j
decode_operand_j-RegistersFit insn = pick_lt 5 insn 7

pub decode_operand_shift_imm_32-RegistersFit :
    (insn : ℕ) → RegistersFit (decode_operand_shift_imm_32 insn)
unfolding decode_operand_shift_imm_32
decode_operand_shift_imm_32-RegistersFit insn =
    (pick_lt 5 insn 7, pick_lt 5 insn 15, omega (arith, pick_lt 5 insn 20))

pub decode_operand_shift_imm_64-RegistersFit :
    (insn : ℕ) → RegistersFit (decode_operand_shift_imm_64 insn)
unfolding decode_operand_shift_imm_64
decode_operand_shift_imm_64-RegistersFit insn =
    (pick_lt 5 insn 7, pick_lt 5 insn 15, pick_lt 6 insn 20)

pub decode_operand_csr-RegistersFit : (insn : ℕ) → RegistersFit (decode_operand_csr insn)
unfolding decode_operand_csr
decode_operand_csr-RegistersFit insn = (pick_lt 5 insn 7, pick_lt 5 insn 15, pick_lt 12 insn 20)

pub decode_operand_csr_imm-RegistersFit : (insn : ℕ) → RegistersFit (decode_operand_csr_imm insn)
unfolding decode_operand_csr_imm
decode_operand_csr_imm-RegistersFit insn = (pick_lt 5 insn 15, pick_lt 5 insn 7, pick_lt 12 insn 20)

pub decode_operand_fence-RegistersFit : (insn : ℕ) → RegistersFit (decode_operand_fence insn)
unfolding decode_operand_fence
decode_operand_fence-RegistersFit insn = tt
