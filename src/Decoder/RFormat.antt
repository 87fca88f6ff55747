-- ===== src/Decoder/RFormat.antt =====
-- src/librafi_common/DecoderImpl.cpp: `Decode` on the words of the register-register instructions.
use rafi_emu.Common.{ℕ, ◌%◌, ◌<◌, ◌≡◌, refl, ap, ◌∙◌, arith, bit_and, false, ◌==◌, ok}
use rafi_emu.Bits.Fields.{bit_and_mask}
use rafi_emu.RvTypes.{Xlen, xlen32, xlen64, xlen128}
use rafi_emu.Op.{OpClass, OpCode, op, operand_r}
use rafi_emu.Decoder.Operand.{pick, decode_operand_r}
use rafi_emu.Decoder.{is_compressed_instruction, decode32}
use rafi_emu.Decoder.Integer.{decode_i_op, decode_i}
use rafi_emu.Decoder.IntegerOps.{decode_i_alu}
use rafi_emu.Decoder.MulDiv.{decode_m_alu, decode_m_op, decode_m}
use rafi_emu.Decoder.Words.{IsSupported}
use rafi_emu.Decoder.Formats.{r_word, opcode_of, funct3_of, funct7_of, decode_operand_r-r_word}

-- The table of the manual: op code, funct3 and funct7 of the base instructions.
pub data IsBase : OpCode → ℕ → ℕ → Type 0 where
  add_code : IsBase OpCode.add 0 0
  sub_code : IsBase OpCode.sub 0 32
  sll_code : IsBase OpCode.sll 1 0
  slt_code : IsBase OpCode.slt 2 0
  sltu_code : IsBase OpCode.sltu 3 0
  xor_code : IsBase OpCode.xor_ 4 0
  srl_code : IsBase OpCode.srl 5 0
  sra_code : IsBase OpCode.sra 5 32
  or_code : IsBase OpCode.or_ 6 0
  and_code : IsBase OpCode.and_ 7 0

-- Op code and funct3 of the multiplications and divisions, whose funct7 is 1.
pub data IsMulDiv : OpCode → ℕ → Type 0 where
  mul_code : IsMulDiv OpCode.mul 0
  mulh_code : IsMulDiv OpCode.mulh 1
  mulhsu_code : IsMulDiv OpCode.mulhsu 2
  mulhu_code : IsMulDiv OpCode.mulhu 3
  div_code : IsMulDiv OpCode.div 4
  divu_code : IsMulDiv OpCode.divu 5
  rem_code : IsMulDiv OpCode.rem 6
  remu_code : IsMulDiv OpCode.remu 7

abbrev pub base_class : Xlen → OpClass
base_class xlen32 = OpClass.rv32i
base_class _ = OpClass.rv64i

abbrev pub mul_div_class : Xlen → OpClass
mul_div_class xlen32 = OpClass.rv32m
mul_div_class _ = OpClass.rv64m

abbrev op_word : ℕ → ℕ → ℕ → ℕ → ℕ → ℕ
op_word = r_word 0b0110011

module _ (rd rs1 rs2 : ℕ) (hd : rd < 32) (h1 : rs1 < 32) (h2 : rs2 < 32) where
  pub not_compressed :
      (f3 f7 : ℕ) → f3 < 8 → f7 < 128 → is_compressed_instruction (op_word rd f3 rs1 rs2 f7) ≡ false
  unfolding is_compressed_instruction
  not_compressed f3 f7 h3 h7 =
      let low : bit_and (op_word rd f3 rs1 rs2 f7) 0b11 ≡ 3 = bit_and_mask 2 _ ∙ omega arith in
      rw low refl

  alu_word :
      (c : OpClass) (code : OpCode) (f3 f7 : ℕ)
      → IsBase code f3 f7
      → pick (op_word rd f3 rs1 rs2 f7) 12 3 ≡ f3
      → pick (op_word rd f3 rs1 rs2 f7) 25 7 ≡ f7
      → decode_i_alu c (op_word rd f3 rs1 rs2 f7)
        ≡ ok (op c code (decode_operand_r (op_word rd f3 rs1 rs2 f7)))
  unfolding decode_i_alu
  alu_word c _ _ _ add_code e3 e7 = rw (e3, e7) refl
  alu_word c _ _ _ sub_code e3 e7 = rw (e3, e7) refl
  alu_word c _ _ _ sll_code e3 e7 = rw (e3, e7) refl
  alu_word c _ _ _ slt_code e3 e7 = rw (e3, e7) refl
  alu_word c _ _ _ sltu_code e3 e7 = rw (e3, e7) refl
  alu_word c _ _ _ xor_code e3 e7 = rw (e3, e7) refl
  alu_word c _ _ _ srl_code e3 e7 = rw (e3, e7) refl
  alu_word c _ _ _ sra_code e3 e7 = rw (e3, e7) refl
  alu_word c _ _ _ or_code e3 e7 = rw (e3, e7) refl
  alu_word c _ _ _ and_code e3 e7 = rw (e3, e7) refl

  mul_div_word :
      (c : OpClass) (code : OpCode) (f3 : ℕ)
      → IsMulDiv code f3
      → pick (op_word rd f3 rs1 rs2 1) 12 3 ≡ f3
      → decode_m_alu c (op_word rd f3 rs1 rs2 1)
        ≡ ok (op c code (decode_operand_r (op_word rd f3 rs1 rs2 1)))
  unfolding decode_m_alu
  mul_div_word c _ _ mul_code e3 = rw e3 refl
  mul_div_word c _ _ mulh_code e3 = rw e3 refl
  mul_div_word c _ _ mulhsu_code e3 = rw e3 refl
  mul_div_word c _ _ mulhu_code e3 = rw e3 refl
  mul_div_word c _ _ div_code e3 = rw e3 refl
  mul_div_word c _ _ divu_code e3 = rw e3 refl
  mul_div_word c _ _ rem_code e3 = rw e3 refl
  mul_div_word c _ _ remu_code e3 = rw e3 refl

pub base_bounds :
    (code : OpCode) (f3 f7 : ℕ) → IsBase code f3 f7 → (f3 < 8) × (f7 < 128) × ((f7 == 1) ≡ false)
base_bounds _ _ _ add_code = (omega arith, omega arith, refl)
base_bounds _ _ _ sub_code = (omega arith, omega arith, refl)
base_bounds _ _ _ sll_code = (omega arith, omega arith, refl)
base_bounds _ _ _ slt_code = (omega arith, omega arith, refl)
base_bounds _ _ _ sltu_code = (omega arith, omega arith, refl)
base_bounds _ _ _ xor_code = (omega arith, omega arith, refl)
base_bounds _ _ _ srl_code = (omega arith, omega arith, refl)
base_bounds _ _ _ sra_code = (omega arith, omega arith, refl)
base_bounds _ _ _ or_code = (omega arith, omega arith, refl)
base_bounds _ _ _ and_code = (omega arith, omega arith, refl)

mul_div_bounds : (code : OpCode) (f3 : ℕ) → IsMulDiv code f3 → f3 < 8
mul_div_bounds _ _ mul_code = omega arith
mul_div_bounds _ _ mulh_code = omega arith
mul_div_bounds _ _ mulhsu_code = omega arith
mul_div_bounds _ _ mulhu_code = omega arith
mul_div_bounds _ _ div_code = omega arith
mul_div_bounds _ _ divu_code = omega arith
mul_div_bounds _ _ rem_code = omega arith
mul_div_bounds _ _ remu_code = omega arith

module _ (x : Xlen) (rd rs1 rs2 : ℕ) (hx : IsSupported x) (hd : rd < 32) (h1 : rs1 < 32)
    (h2 : rs2 < 32) where
  to_decode_i :
      (f3 f7 : ℕ)
      → f3 < 8
      → f7 < 128
      → (f7 == 1) ≡ false
      → decode32 x (op_word rd f3 rs1 rs2 f7) ≡ decode_i x (op_word rd f3 rs1 rs2 f7)
  unfolding decode32
  to_decode_i f3 f7 h3 h7 n1 =
      rw
        (
          not_compressed rd rs1 rs2 hd h1 h2 f3 f7 h3 h7,
          opcode_of 0b0110011 rd f3 rs1 rs2 f7 (omega arith) hd h3 h1 h2 h7,
          funct7_of 0b0110011 rd f3 rs1 rs2 f7 (omega arith) hd h3 h1 h2 h7,
          n1,
        )
        refl

  to_decode_m :
      (f3 : ℕ)
      → f3 < 8
      → decode32 x (op_word rd f3 rs1 rs2 1) ≡ decode_m x (op_word rd f3 rs1 rs2 1)
  unfolding decode32
  to_decode_m f3 h3 =
      rw
        (
          not_compressed rd rs1 rs2 hd h1 h2 f3 1 h3 (omega arith),
          opcode_of 0b0110011 rd f3 rs1 rs2 1 (omega arith) hd h3 h1 h2 (omega arith),
          funct7_of 0b0110011 rd f3 rs1 rs2 1 (omega arith) hd h3 h1 h2 (omega arith),
        )
        refl

decode_i-class :
    (x : Xlen) (insn : ℕ) → IsSupported x → decode_i x insn ≡ decode_i_op (base_class x) insn
unfolding decode_i
decode_i-class xlen32 insn h = refl
decode_i-class xlen64 insn h = refl
decode_i-class xlen128 insn h = absurd (h refl)

decode_m-class :
    (x : Xlen) (insn : ℕ) → IsSupported x → decode_m x insn ≡ decode_m_op (mul_div_class x) insn
unfolding decode_m
decode_m-class xlen32 insn h = refl
decode_m-class xlen64 insn h = refl
decode_m-class xlen128 insn h = absurd (h refl)

decode_i_op-alu :
    (c : OpClass) (insn : ℕ) → pick insn 0 7 ≡ 0b0110011 → decode_i_op c insn ≡ decode_i_alu c insn
unfolding decode_i_op
decode_i_op-alu c insn e = rw e refl

decode_m_op-alu :
    (c : OpClass) (insn : ℕ) → pick insn 0 7 ≡ 0b0110011 → decode_m_op c insn ≡ decode_m_alu c insn
unfolding decode_m_op
decode_m_op-alu c insn e = rw e refl

-- The word of a register-register instruction decodes to its op code and its three registers, on
-- RV32 and on RV64. Of its funct7 the operand keeps the low five bits.
pub decode32-r_word :
    (x : Xlen) (code : OpCode) (rd rs1 rs2 f3 f7 : ℕ)
    → IsSupported x
    → IsBase code f3 f7
    → rd < 32
    → rs1 < 32
    → rs2 < 32
    → decode32 x (r_word 0b0110011 rd f3 rs1 rs2 f7)
      ≡ ok (op (base_class x) code (operand_r rd rs1 rs2 f3 (f7 % 32)))
decode32-r_word x code rd rs1 rs2 f3 f7 hx b hd h1 h2 =
    let (h3, h7, n1) = base_bounds code f3 f7 b in
    let w = op_word rd f3 rs1 rs2 f7 in
    let bound : 0b0110011 < 128 = omega arith in
    to_decode_i x rd rs1 rs2 hx hd h1 h2 f3 f7 h3 h7 n1
    ∙ decode_i-class x w hx
    ∙ decode_i_op-alu (base_class x) w (opcode_of 0b0110011 rd f3 rs1 rs2 f7 bound hd h3 h1 h2 h7)
    ∙ alu_word rd rs1 rs2 hd h1 h2 (base_class x) code f3 f7 b
        (funct3_of 0b0110011 rd f3 rs1 rs2 f7 bound hd h3 h1 h2 h7)
        (funct7_of 0b0110011 rd f3 rs1 rs2 f7 bound hd h3 h1 h2 h7)
    ∙ ap (λ o. ok (op (base_class x) code o))
        (decode_operand_r-r_word 0b0110011 rd f3 rs1 rs2 f7 bound hd h3 h1 h2 h7)

-- The word of a multiplication or division does the same.
pub decode32-mul_div_word :
    (x : Xlen) (code : OpCode) (rd rs1 rs2 f3 : ℕ)
    → IsSupported x
    → IsMulDiv code f3
    → rd < 32
    → rs1 < 32
    → rs2 < 32
    → decode32 x (r_word 0b0110011 rd f3 rs1 rs2 1)
      ≡ ok (op (mul_div_class x) code (operand_r rd rs1 rs2 f3 1))
decode32-mul_div_word x code rd rs1 rs2 f3 hx b hd h1 h2 =
    let h3 = mul_div_bounds code f3 b in
    let w = op_word rd f3 rs1 rs2 1 in
    let bound : 0b0110011 < 128 = omega arith in
    let h7 : 1 < 128 = omega arith in
    to_decode_m x rd rs1 rs2 hx hd h1 h2 f3 h3
    ∙ decode_m-class x w hx
    ∙ decode_m_op-alu (mul_div_class x) w (opcode_of 0b0110011 rd f3 rs1 rs2 1 bound hd h3 h1 h2 h7)
    ∙ mul_div_word rd rs1 rs2 hd h1 h2 (mul_div_class x) code f3 b
        (funct3_of 0b0110011 rd f3 rs1 rs2 1 bound hd h3 h1 h2 h7)
    ∙ ap (λ o. ok (op (mul_div_class x) code o))
        (decode_operand_r-r_word 0b0110011 rd f3 rs1 rs2 1 bound hd h3 h1 h2 h7)
