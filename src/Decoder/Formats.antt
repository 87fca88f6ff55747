-- ===== src/Decoder/Formats.antt =====
-- The instruction formats of the RISC-V manual, as the sums of their fields, and what `Pick` and the operand
-- functions of librafi_common/DecoderImpl.cpp find in them.
use rafi_emu.Common.{ℕ, ◌+◌, ◌*◌, ◌/◌, ◌%◌, ◌^◌, ◌<◌, ◌≡◌, refl, ap, ◌∙◌, arith, bit_or}
use rafi_emu.Word.{sign_extend}
use rafi_emu.Bits.Disjoint.{bit_or_low, bit_or_between}
use rafi_emu.Op.{operand_r, operand_s, operand_b, operand_j}
use rafi_emu.Decoder.Operand.{
  pick, ◌<<◌, ◌|||◌, decode_operand_r, decode_operand_s, decode_operand_b, decode_operand_j,
}
use rafi_emu.Decoder.Registers.{pick-mod}

abbrev pub r_word : ℕ → ℕ → ℕ → ℕ → ℕ → ℕ → ℕ
r_word opcode rd funct3 rs1 rs2 funct7 =
    opcode + rd * 2 ^ 7 + funct3 * 2 ^ 12 + rs1 * 2 ^ 15 + rs2 * 2 ^ 20 + funct7 * 2 ^ 25

abbrev pub i_word : ℕ → ℕ → ℕ → ℕ → ℕ → ℕ
i_word opcode rd funct3 rs1 imm =
    opcode + rd * 2 ^ 7 + funct3 * 2 ^ 12 + rs1 * 2 ^ 15 + imm * 2 ^ 20

abbrev pub s_word : ℕ → ℕ → ℕ → ℕ → ℕ → ℕ
s_word opcode funct3 rs1 rs2 imm = r_word opcode (imm % 32) funct3 rs1 rs2 (imm / 32)

abbrev pub b_word : ℕ → ℕ → ℕ → ℕ → ℕ → ℕ
b_word opcode funct3 rs1 rs2 imm =
    r_word opcode (imm / 2 ^ 11 % 2 + imm / 2 % 16 * 2) funct3 rs1 rs2
      (imm / 2 ^ 5 % 64 + imm / 2 ^ 12 * 64)

abbrev pub j_word : ℕ → ℕ → ℕ → ℕ
j_word opcode rd imm =
    opcode
    + rd * 2 ^ 7
    + imm / 2 ^ 12 % 256 * 2 ^ 12
    + imm / 2 ^ 11 % 2 * 2 ^ 20
    + imm / 2 % 1024 * 2 ^ 21
    + imm / 2 ^ 20 * 2 ^ 31

module _ (opcode rd funct3 rs1 rs2 funct7 : ℕ) (ho : opcode < 128) (hd : rd < 32) (h3 : funct3 < 8)
    (h1 : rs1 < 32) (h2 : rs2 < 32) (h7 : funct7 < 128) where
  abbrev word : ℕ
  word = r_word opcode rd funct3 rs1 rs2 funct7

  pub opcode_of : pick word 0 7 ≡ opcode
  opcode_of = pick-mod word 0 7 ∙ omega arith

  pub rd_of : pick word 7 5 ≡ rd
  rd_of = pick-mod word 7 5 ∙ omega arith

  pub funct3_of : pick word 12 3 ≡ funct3
  funct3_of = pick-mod word 12 3 ∙ omega arith

  pub rs1_of : pick word 15 5 ≡ rs1
  rs1_of = pick-mod word 15 5 ∙ omega arith

  pub rs2_of : pick word 20 5 ≡ rs2
  rs2_of = pick-mod word 20 5 ∙ omega arith

  pub funct7_of : pick word 25 7 ≡ funct7
  funct7_of = pick-mod word 25 7 ∙ omega arith

  pub low_funct7_of : pick word 25 5 ≡ funct7 % 32
  low_funct7_of = pick-mod word 25 5 ∙ omega arith

  -- The operand of an R-format word: its registers and functs, less the top bits of funct7.
  pub decode_operand_r-r_word : decode_operand_r word ≡ operand_r rd rs1 rs2 funct3 (funct7 % 32)
  unfolding decode_operand_r
  decode_operand_r-r_word = cc (rd_of, rs1_of, rs2_of, funct3_of, low_funct7_of)

  pub decode_operand_s-r_word :
      decode_operand_s word ≡ operand_s (sign_extend 64 12 (funct7 * 32 + rd)) rs1 rs2 funct3
  unfolding decode_operand_s
  decode_operand_s-r_word =
      cc (rd_of, rs1_of, rs2_of, funct3_of, funct7_of, bit_or_low 5 funct7 rd hd)

-- The immediate of a store is the 12-bit field, extended by its sign.
pub decode_operand_s-s_word :
    (opcode funct3 rs1 rs2 imm : ℕ)
    → opcode < 128
    → funct3 < 8
    → rs1 < 32
    → rs2 < 32
    → imm < 2 ^ 12
    → decode_operand_s (s_word opcode funct3 rs1 rs2 imm)
      ≡ operand_s (sign_extend 64 12 imm) rs1 rs2 funct3
decode_operand_s-s_word opcode funct3 rs1 rs2 imm ho h3 h1 h2 hi =
    decode_operand_s-r_word opcode (imm % 32) funct3 rs1 rs2 (imm / 32) ho (omega arith) h3 h1 h2
      (omega arith)
    ∙ ap (λ (v : ℕ). operand_s (sign_extend 64 12 v) rs1 rs2 funct3) (omega arith)

module _ (f12 f5 f1 f11 : ℕ) (h5 : f5 < 64) (h1 : f1 < 16) (h11 : f11 < 2) where
  -- The scattered bits of the immediate of a branch.
  gather_b :
      (f12 << 12 ||| f5 << 5 ||| f1 << 1 ||| f11 << 11)
      ≡ f12 * 2 ^ 12 + f11 * 2 ^ 11 + f5 * 2 ^ 5 + f1 * 2
  gather_b =
      ap (λ (t : ℕ). bit_or (bit_or t (f1 * 2 ^ 1)) (f11 * 2 ^ 11)) high
      ∙ ap (λ (t : ℕ). bit_or t (f11 * 2 ^ 11)) middle
      ∙ bit_or_between 11 1 f12 (f5 * 2 ^ 5 + f1 * 2) f11 (omega arith) h11
      ∙ omega arith
    where
      high : bit_or (f12 * 2 ^ 12) (f5 * 2 ^ 5) ≡ (f12 * 2 ^ 7 + f5) * 2 ^ 5
      high = bit_or_low 12 f12 (f5 * 2 ^ 5) (omega arith) ∙ omega arith

      middle :
          bit_or ((f12 * 2 ^ 7 + f5) * 2 ^ 5) (f1 * 2 ^ 1)
          ≡ f12 * 2 ^ 1 * 2 ^ 11 + (f5 * 2 ^ 5 + f1 * 2)
      middle = bit_or_low 5 (f12 * 2 ^ 7 + f5) (f1 * 2 ^ 1) (omega arith) ∙ omega arith

module _ (f20 f1 f11 f12 : ℕ) (h1 : f1 < 1024) (h11 : f11 < 2) (h12 : f12 < 256) where
  -- The scattered bits of the immediate of a jump.
  gather_j :
      (f20 << 20 ||| f1 << 1 ||| f11 << 11 ||| f12 << 12)
      ≡ f20 * 2 ^ 20 + f12 * 2 ^ 12 + f11 * 2 ^ 11 + f1 * 2
  gather_j =
      ap (λ (t : ℕ). bit_or (bit_or t (f11 * 2 ^ 11)) (f12 * 2 ^ 12)) high
      ∙ ap (λ (t : ℕ). bit_or t (f12 * 2 ^ 12)) middle
      ∙ bit_or_between 12 8 f20 (f11 * 2 ^ 11 + f1 * 2) f12 (omega arith) h12
      ∙ omega arith
    where
      high : bit_or (f20 * 2 ^ 20) (f1 * 2 ^ 1) ≡ f20 * 2 ^ 8 * 2 ^ 1 * 2 ^ 11 + f1 * 2
      high = bit_or_low 20 f20 (f1 * 2 ^ 1) (omega arith) ∙ omega arith

      middle :
          bit_or (f20 * 2 ^ 8 * 2 ^ 1 * 2 ^ 11 + f1 * 2) (f11 * 2 ^ 11)
          ≡ f20 * 2 ^ 8 * 2 ^ 12 + (f11 * 2 ^ 11 + f1 * 2)
      middle = bit_or_between 11 1 (f20 * 2 ^ 8) (f1 * 2) f11 (omega arith) h11 ∙ omega arith

-- The immediate of a branch is even and has 13 bits; the word scatters them, and the decoder
-- gathers them again.
pub decode_operand_b-b_word :
    (opcode funct3 rs1 rs2 imm : ℕ)
    → opcode < 128
    → funct3 < 8
    → rs1 < 32
    → rs2 < 32
    → imm < 2 ^ 13
    → imm % 2 ≡ 0
    → decode_operand_b (b_word opcode funct3 rs1 rs2 imm)
      ≡ operand_b (sign_extend 64 13 imm) rs1 rs2 funct3
unfolding decode_operand_b
decode_operand_b-b_word opcode funct3 rs1 rs2 imm ho h3 h1 h2 hi even =
    let w = b_word opcode funct3 rs1 rs2 imm in
    let f12 : pick w 31 1 ≡ imm / 2 ^ 12 = pick-mod w 31 1 ∙ omega arith in
    let f5 : pick w 25 6 ≡ imm / 2 ^ 5 % 64 = pick-mod w 25 6 ∙ omega arith in
    let f1 : pick w 8 4 ≡ imm / 2 % 16 = pick-mod w 8 4 ∙ omega arith in
    let f11 : pick w 7 1 ≡ imm / 2 ^ 11 % 2 = pick-mod w 7 1 ∙ omega arith in
    let r1 : pick w 15 5 ≡ rs1 = pick-mod w 15 5 ∙ omega arith in
    let r2 : pick w 20 5 ≡ rs2 = pick-mod w 20 5 ∙ omega arith in
    let f3 : pick w 12 3 ≡ funct3 = pick-mod w 12 3 ∙ omega arith in
    let g =
      gather_b (imm / 2 ^ 12) (imm / 2 ^ 5 % 64) (imm / 2 % 16) (imm / 2 ^ 11 % 2) (omega arith)
        (omega arith) (omega arith) in
    let sum : imm / 2 ^ 12 * 2 ^ 12
          + imm / 2 ^ 11 % 2 * 2 ^ 11
          + imm / 2 ^ 5 % 64 * 2 ^ 5
          + imm / 2 % 16 * 2
        ≡ imm =
      omega arith in
    rw (f12, f5, f1, f11, r1, r2, f3, g, sum) refl

-- The immediate of a jump is even and has 21 bits.
pub decode_operand_j-j_word :
    (opcode rd imm : ℕ)
    → opcode < 128
    → rd < 32
    → imm < 2 ^ 21
    → imm % 2 ≡ 0
    → decode_operand_j (j_word opcode rd imm) ≡ operand_j (sign_extend 64 21 imm) rd
unfolding decode_operand_j
decode_operand_j-j_word opcode rd imm ho hd hi even =
    let w = j_word opcode rd imm in
    let f20 : pick w 31 1 ≡ imm / 2 ^ 20 = pick-mod w 31 1 ∙ omega arith in
    let f1 : pick w 21 10 ≡ imm / 2 % 1024 = pick-mod w 21 10 ∙ omega arith in
    let f11 : pick w 20 1 ≡ imm / 2 ^ 11 % 2 = pick-mod w 20 1 ∙ omega arith in
    let f12 : pick w 12 8 ≡ imm / 2 ^ 12 % 256 = pick-mod w 12 8 ∙ omega arith in
    let r : pick w 7 5 ≡ rd = pick-mod w 7 5 ∙ omega arith in
    let g =
      gather_j (imm / 2 ^ 20) (imm / 2 % 1024) (imm / 2 ^ 11 % 2) (imm / 2 ^ 12 % 256) (omega arith)
        (omega arith) (omega arith) in
    let sum : imm / 2 ^ 20 * 2 ^ 20
          + imm / 2 ^ 12 % 256 * 2 ^ 12
          + imm / 2 ^ 11 % 2 * 2 ^ 11
          + imm / 2 % 1024 * 2
        ≡ imm =
      omega arith in
    rw (f20, f1, f11, f12, r, g, sum) refl
