-- ===== src/Decoder/Compressed.antt =====
-- src/librafi_common/DecoderImpl.cpp: `DecodeC`.
use rafi_emu.Common.{ℕ, true, false, not, ◌==◌, ◌&&◌, if◌then◌else◌, Outcome, ◌>>=◌, ok}
use rafi_emu.Op.{OpClass, OpCode, Op, is_class, op, operand_none}
use rafi_emu.Decoder.Operand.{pick}
use rafi_emu.Decoder.OperandC.{
  decode_operand_cb, decode_operand_ci, decode_operand_ci_addi16sp, decode_operand_ci_alu_imm,
  decode_operand_ci_load_sp, decode_operand_ci_lui, decode_operand_ciw, decode_operand_cj,
  decode_operand_cl, decode_operand_cr, decode_operand_cr_alu, decode_operand_cs,
  decode_operand_css,
}
use rafi_emu.Decoder.Results.{unknown_op, with_operand, class_of}
use rafi_emu.RvTypes.{Xlen}

unfoldable pub decode_c_quadrant_0 : OpClass → ℕ → Outcome Op
decode_c_quadrant_0 op_class insn =
    let funct3 = pick insn 13 3 in
    if funct3 == 0b000 && not (pick insn 5 8 == 0)
    then ok (op op_class OpCode.c_addi4spn (decode_operand_ciw insn))
    else if funct3 == 0b001
    then with_operand op_class OpCode.c_fld (decode_operand_cl insn 8)
    else if funct3 == 0b010
    then with_operand op_class OpCode.c_lw (decode_operand_cl insn 4)
    else if funct3 == 0b011 && is_class op_class OpClass.rv32c
    then with_operand op_class OpCode.c_flw (decode_operand_cl insn 4)
    else if funct3 == 0b011 && is_class op_class OpClass.rv64c
    then with_operand op_class OpCode.c_ld (decode_operand_cl insn 8)
    else if funct3 == 0b101
    then with_operand op_class OpCode.c_fsd (decode_operand_cs insn 8)
    else if funct3 == 0b110
    then with_operand op_class OpCode.c_sw (decode_operand_cs insn 4)
    else if funct3 == 0b111 && is_class op_class OpClass.rv32c
    then with_operand op_class OpCode.c_fsw (decode_operand_cs insn 4)
    else if funct3 == 0b111 && is_class op_class OpClass.rv64c
    then with_operand op_class OpCode.c_sd (decode_operand_cs insn 8)
    else unknown_op op_class

unfoldable pub decode_c_quadrant_1 : OpClass → ℕ → Outcome Op
decode_c_quadrant_1 op_class insn =
    let funct4 = pick insn 12 4 in
    let funct3 = pick insn 13 3 in
    let funct2_rs1 = pick insn 10 2 in
    let funct2_rs2 = pick insn 5 2 in
    let rd = pick insn 7 5 in
    let rs2 = pick insn 2 5 in
    if funct4 == 0b0000 && rd == 0 && rs2 == 0
    then ok (op op_class OpCode.c_nop operand_none)
    else if funct3 == 0b000
    then ok (op op_class OpCode.c_addi (decode_operand_ci insn true))
    else if funct3 == 0b001 && is_class op_class OpClass.rv32c
    then ok (op op_class OpCode.c_jal (decode_operand_cj insn))
    else if funct3 == 0b001 && is_class op_class OpClass.rv64c && not (rd == 0)
    then ok (op op_class OpCode.c_addiw (decode_operand_ci insn true))
    else if funct3 == 0b010 && not (rd == 0)
    then ok (op op_class OpCode.c_li (decode_operand_ci insn true))
    else if funct3 == 0b011 && rd == 2
    then ok (op op_class OpCode.c_addi16sp (decode_operand_ci_addi16sp insn))
    else if funct3 == 0b011 && not (rd == 0) && not (rd == 2)
    then ok (op op_class OpCode.c_lui (decode_operand_ci_lui insn))
    else if funct3 == 0b100 && funct2_rs1 == 0b00
    then ok (op op_class OpCode.c_srli (decode_operand_ci_alu_imm insn false))
    else if funct3 == 0b100 && funct2_rs1 == 0b01
    then ok (op op_class OpCode.c_srai (decode_operand_ci_alu_imm insn false))
    else if funct3 == 0b100 && funct2_rs1 == 0b10
    then ok (op op_class OpCode.c_andi (decode_operand_ci_alu_imm insn true))
    else if funct4 == 0b1000 && funct2_rs1 == 0b11 && funct2_rs2 == 0b00
    then ok (op op_class OpCode.c_sub (decode_operand_cr_alu insn))
    else if funct4 == 0b1000 && funct2_rs1 == 0b11 && funct2_rs2 == 0b01
    then ok (op op_class OpCode.c_xor (decode_operand_cr_alu insn))
    else if funct4 == 0b1000 && funct2_rs1 == 0b11 && funct2_rs2 == 0b10
    then ok (op op_class OpCode.c_or (decode_operand_cr_alu insn))
    else if funct4 == 0b1000 && funct2_rs1 == 0b11 && funct2_rs2 == 0b11
    then ok (op op_class OpCode.c_and (decode_operand_cr_alu insn))
    else if funct4 == 0b1001 && funct2_rs1 == 0b11 && funct2_rs2 == 0b00
    then ok (op op_class OpCode.c_subw (decode_operand_cr_alu insn))
    else if funct4 == 0b1001 && funct2_rs1 == 0b11 && funct2_rs2 == 0b01
    then ok (op op_class OpCode.c_addw (decode_operand_cr_alu insn))
    else if funct3 == 0b101
    then ok (op op_class OpCode.c_j (decode_operand_cj insn))
    else if funct3 == 0b110
    then ok (op op_class OpCode.c_beqz (decode_operand_cb insn))
    else if funct3 == 0b111
    then ok (op op_class OpCode.c_bnez (decode_operand_cb insn))
    else unknown_op op_class

unfoldable pub decode_c_quadrant_2 : OpClass → ℕ → Outcome Op
decode_c_quadrant_2 op_class insn =
    let funct4 = pick insn 12 4 in
    let funct3 = pick insn 13 3 in
    let rd = pick insn 7 5 in
    let rs1 = pick insn 7 5 in
    let rs2 = pick insn 2 5 in
    if funct3 == 0b000
    then ok (op op_class OpCode.c_slli (decode_operand_ci insn true))
    else if funct3 == 0b001
    then with_operand op_class OpCode.c_fldsp (decode_operand_ci_load_sp insn 8)
    else if funct3 == 0b010 && not (rd == 0)
    then with_operand op_class OpCode.c_lwsp (decode_operand_ci_load_sp insn 4)
    else if funct3 == 0b011 && is_class op_class OpClass.rv32c
    then with_operand op_class OpCode.c_flwsp (decode_operand_ci_load_sp insn 4)
    else if funct3 == 0b011 && is_class op_class OpClass.rv64c && not (rd == 0)
    then with_operand op_class OpCode.c_ldsp (decode_operand_ci_load_sp insn 8)
    else if funct4 == 0b1000 && not (rs1 == 0) && rs2 == 0
    then ok (op op_class OpCode.c_jr (decode_operand_cr insn))
    else if funct4 == 0b1000 && not (rd == 0) && not (rs2 == 0)
    then ok (op op_class OpCode.c_mv (decode_operand_cr insn))
    else if funct4 == 0b1001 && rd == 0 && rs2 == 0
    then ok (op op_class OpCode.c_ebreak (decode_operand_cr insn))
    else if funct4 == 0b1001 && not (rs1 == 0) && rs2 == 0
    then ok (op op_class OpCode.c_jalr (decode_operand_cr insn))
    else if funct4 == 0b1001 && not (rs1 == 0) && not (rs2 == 0)
    then ok (op op_class OpCode.c_add (decode_operand_cr insn))
    else if funct3 == 0b101
    then with_operand op_class OpCode.c_fsdsp (decode_operand_css insn 8)
    else if funct3 == 0b110
    then with_operand op_class OpCode.c_swsp (decode_operand_css insn 4)
    else if funct3 == 0b111 && is_class op_class OpClass.rv32c
    then with_operand op_class OpCode.c_fswsp (decode_operand_css insn 4)
    else if funct3 == 0b111 && is_class op_class OpClass.rv64c
    then with_operand op_class OpCode.c_sdsp (decode_operand_css insn 8)
    else unknown_op op_class

unfoldable pub decode_c_op : OpClass → ℕ → Outcome Op
decode_c_op op_class insn =
    let opcode = pick insn 0 2 in
    if opcode == 0b00
    then decode_c_quadrant_0 op_class insn
    else if opcode == 0b01
    then decode_c_quadrant_1 op_class insn
    else if opcode == 0b10
    then decode_c_quadrant_2 op_class insn
    else unknown_op op_class

unfoldable pub decode_c : Xlen → ℕ → Outcome Op
decode_c xlen insn =
    class_of xlen OpClass.rv32c OpClass.rv64c >>= λ op_class. decode_c_op op_class insn
