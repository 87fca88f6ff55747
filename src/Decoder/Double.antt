-- ===== src/Decoder/Double.antt =====
-- src/librafi_common/DecoderImpl.cpp: `DecodeD`.
use rafi_emu.Common.{ℕ, ◌==◌, ◌&&◌, if◌then◌else◌, Outcome, ◌>>=◌, ok}
use rafi_emu.Op.{OpClass, OpCode, Op, op}
use rafi_emu.Decoder.Operand.{
  pick, decode_operand_i, decode_operand_r, decode_operand_r4, decode_operand_s,
}
use rafi_emu.Decoder.Results.{unknown_op, class_of}
use rafi_emu.RvTypes.{Xlen}

unfoldable pub decode_d_sign : OpClass → ℕ → Outcome Op
decode_d_sign op_class insn =
    let funct3 = pick insn 12 3 in
    if funct3 == 0b000
    then ok (op op_class OpCode.fsgnj_d (decode_operand_r insn))
    else if funct3 == 0b001
    then ok (op op_class OpCode.fsgnjn_d (decode_operand_r insn))
    else if funct3 == 0b010
    then ok (op op_class OpCode.fsgnjx_d (decode_operand_r insn))
    else unknown_op op_class

unfoldable pub decode_d_min_max : OpClass → ℕ → Outcome Op
decode_d_min_max op_class insn =
    let funct3 = pick insn 12 3 in
    if funct3 == 0b000
    then ok (op op_class OpCode.fmin_d (decode_operand_r insn))
    else if funct3 == 0b001
    then ok (op op_class OpCode.fmax_d (decode_operand_r insn))
    else unknown_op op_class

unfoldable pub decode_d_compare : OpClass → ℕ → Outcome Op
decode_d_compare op_class insn =
    let funct3 = pick insn 12 3 in
    if funct3 == 0b000
    then ok (op op_class OpCode.fle_d (decode_operand_r insn))
    else if funct3 == 0b001
    then ok (op op_class OpCode.flt_d (decode_operand_r insn))
    else if funct3 == 0b010
    then ok (op op_class OpCode.feq_d (decode_operand_r insn))
    else unknown_op op_class

unfoldable pub decode_d_move : OpClass → ℕ → Outcome Op
decode_d_move op_class insn =
    let funct3 = pick insn 12 3 in
    let rs2 = pick insn 20 5 in
    if rs2 == 0b00000 && funct3 == 0b000
    then ok (op op_class OpCode.fmv_x_d (decode_operand_r insn))
    else if rs2 == 0b00000 && funct3 == 0b001
    then ok (op op_class OpCode.fclass_d (decode_operand_r insn))
    else unknown_op op_class

unfoldable pub decode_d_to_int : OpClass → ℕ → Outcome Op
decode_d_to_int op_class insn =
    let rs2 = pick insn 20 5 in
    if rs2 == 0b00000
    then ok (op op_class OpCode.fcvt_w_d (decode_operand_r insn))
    else if rs2 == 0b00001
    then ok (op op_class OpCode.fcvt_wu_d (decode_operand_r insn))
    else if rs2 == 0b00010
    then ok (op op_class OpCode.fcvt_l_d (decode_operand_r insn))
    else if rs2 == 0b00011
    then ok (op op_class OpCode.fcvt_lu_d (decode_operand_r insn))
    else unknown_op op_class

unfoldable pub decode_d_of_int : OpClass → ℕ → Outcome Op
decode_d_of_int op_class insn =
    let rs2 = pick insn 20 5 in
    if rs2 == 0b00000
    then ok (op op_class OpCode.fcvt_d_w (decode_operand_r insn))
    else if rs2 == 0b00001
    then ok (op op_class OpCode.fcvt_d_wu (decode_operand_r insn))
    else if rs2 == 0b00010
    then ok (op op_class OpCode.fcvt_d_l (decode_operand_r insn))
    else if rs2 == 0b00011
    then ok (op op_class OpCode.fcvt_d_lu (decode_operand_r insn))
    else unknown_op op_class

unfoldable pub decode_d_op_fp : OpClass → ℕ → Outcome Op
decode_d_op_fp op_class insn =
    let funct3 = pick insn 12 3 in
    let funct7 = pick insn 25 7 in
    let rs2 = pick insn 20 5 in
    if funct7 == 0b0000001
    then ok (op op_class OpCode.fadd_d (decode_operand_r insn))
    else if funct7 == 0b0000101
    then ok (op op_class OpCode.fsub_d (decode_operand_r insn))
    else if funct7 == 0b0001001
    then ok (op op_class OpCode.fmul_d (decode_operand_r insn))
    else if funct7 == 0b0001101
    then ok (op op_class OpCode.fdiv_d (decode_operand_r insn))
    else if funct7 == 0b0101101
    then (if rs2 == 0b00000
        then ok (op op_class OpCode.fsqrt_d (decode_operand_r insn))
        else unknown_op op_class)
    else if funct7 == 0b0010001
    then decode_d_sign op_class insn
    else if funct7 == 0b0010101
    then decode_d_min_max op_class insn
    else if funct7 == 0b0100000
    then (if rs2 == 0b00001
        then ok (op op_class OpCode.fcvt_s_d (decode_operand_r insn))
        else unknown_op op_class)
    else if funct7 == 0b0100001
    then (if rs2 == 0b00000
        then ok (op op_class OpCode.fcvt_d_s (decode_operand_r insn))
        else unknown_op op_class)
    else if funct7 == 0b1010001
    then decode_d_compare op_class insn
    else if funct7 == 0b1110001
    then decode_d_move op_class insn
    else if funct7 == 0b1100001
    then decode_d_to_int op_class insn
    else if funct7 == 0b1101001
    then decode_d_of_int op_class insn
    else if funct7 == 0b1111001
    then (if rs2 == 0b00000 && funct3 == 0b000
        then ok (op op_class OpCode.fmv_d_x (decode_operand_r insn))
        else unknown_op op_class)
    else unknown_op op_class

unfoldable pub decode_d_op : OpClass → ℕ → Outcome Op
decode_d_op op_class insn =
    let opcode = pick insn 0 7 in
    let funct3 = pick insn 12 3 in
    if opcode == 0b0000111
    then (if funct3 == 0b011
        then ok (op op_class OpCode.fld (decode_operand_i insn))
        else unknown_op op_class)
    else if opcode == 0b0100111
    then (if funct3 == 0b011
        then ok (op op_class OpCode.fsd (decode_operand_s insn))
        else unknown_op op_class)
    else if opcode == 0b1000011
    then ok (op op_class OpCode.fmadd_d (decode_operand_r4 insn))
    else if opcode == 0b1000111
    then ok (op op_class OpCode.fmsub_d (decode_operand_r4 insn))
    else if opcode == 0b1001011
    then ok (op op_class OpCode.fnmsub_d (decode_operand_r4 insn))
    else if opcode == 0b1001111
    then ok (op op_class OpCode.fnmadd_d (decode_operand_r4 insn))
    else if opcode == 0b1010011
    then decode_d_op_fp op_class insn
    else unknown_op op_class

unfoldable pub decode_d : Xlen → ℕ → Outcome Op
decode_d xlen insn =
    class_of xlen OpClass.rv32d OpClass.rv64d >>= λ op_class. decode_d_op op_class insn
