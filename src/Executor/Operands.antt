-- ===== src/Executor/Operands.antt =====
-- `std::get` on an operand: another alternative throws `std::bad_variant_access`.
use rafi_emu.Common.{ℕ, Outcome, ok, throws}
use rafi_emu.Op.{
  Operand, operand_r, operand_i, operand_s, operand_b, operand_u, operand_j, operand_shift_imm,
  operand_csr, operand_csr_imm, operand_cr, operand_ci, operand_css, operand_ciw, operand_cl,
  operand_cs, operand_cb, operand_cj,
}

abbrev pub get_r : Operand → Outcome (ℕ × ℕ × ℕ)
get_r (operand_r rd rs1 rs2 _ _) = ok (rd, rs1, rs2)
get_r _ = throws

abbrev pub get_i : Operand → Outcome (ℕ × ℕ × ℕ)
get_i (operand_i imm rd rs1 _) = ok (imm, rd, rs1)
get_i _ = throws

abbrev pub get_s : Operand → Outcome (ℕ × ℕ × ℕ)
get_s (operand_s imm rs1 rs2 _) = ok (imm, rs1, rs2)
get_s _ = throws

abbrev pub get_b : Operand → Outcome (ℕ × ℕ × ℕ)
get_b (operand_b imm rs1 rs2 _) = ok (imm, rs1, rs2)
get_b _ = throws

abbrev pub get_u : Operand → Outcome (ℕ × ℕ)
get_u (operand_u imm rd) = ok (imm, rd)
get_u _ = throws

abbrev pub get_j : Operand → Outcome (ℕ × ℕ)
get_j (operand_j imm rd) = ok (imm, rd)
get_j _ = throws

abbrev pub get_shift_imm : Operand → Outcome (ℕ × ℕ × ℕ)
get_shift_imm (operand_shift_imm rd rs1 shamt) = ok (rd, rs1, shamt)
get_shift_imm _ = throws

abbrev pub get_csr_operand : Operand → Outcome (ℕ × ℕ × ℕ)
get_csr_operand (operand_csr rd rs1 csr) = ok (rd, rs1, csr)
get_csr_operand _ = throws

abbrev pub get_csr_imm : Operand → Outcome (ℕ × ℕ × ℕ)
get_csr_imm (operand_csr_imm zimm rd csr) = ok (zimm, rd, csr)
get_csr_imm _ = throws

abbrev pub get_cr : Operand → Outcome (ℕ × ℕ × ℕ)
get_cr (operand_cr rd rs1 rs2) = ok (rd, rs1, rs2)
get_cr _ = throws

abbrev pub get_ci : Operand → Outcome (ℕ × ℕ × ℕ)
get_ci (operand_ci imm rd rs1) = ok (imm, rd, rs1)
get_ci _ = throws

abbrev pub get_css : Operand → Outcome (ℕ × ℕ)
get_css (operand_css imm rs2) = ok (imm, rs2)
get_css _ = throws

abbrev pub get_ciw : Operand → Outcome (ℕ × ℕ)
get_ciw (operand_ciw imm rd) = ok (imm, rd)
get_ciw _ = throws

abbrev pub get_cl : Operand → Outcome (ℕ × ℕ × ℕ)
get_cl (operand_cl imm rd rs1) = ok (imm, rd, rs1)
get_cl _ = throws

abbrev pub get_cs : Operand → Outcome (ℕ × ℕ × ℕ)
get_cs (operand_cs imm rs1 rs2) = ok (imm, rs1, rs2)
get_cs _ = throws

abbrev pub get_cb : Operand → Outcome (ℕ × ℕ)
get_cb (operand_cb imm rs1) = ok (imm, rs1)
get_cb _ = throws

abbrev pub get_cj : Operand → Outcome ℕ
get_cj (operand_cj imm) = ok imm
get_cj _ = throws
