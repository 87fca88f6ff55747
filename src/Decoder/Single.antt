-- ===== src/Decoder/Single.antt =====
-- src/librafi_common/DecoderImpl.cpp: `DecodeF`.
use rafi_emu.Common.{ℕ, ◌==◌, ◌&&◌, if◌then◌else◌, Outcome, ◌>>=◌, ok}
use rafi_emu.Op.{OpClass, OpCode, Op, is_class, op}
use rafi_emu.Decoder.Operand.{
  pick, decode_operand_i, decode_operand_r, decode_operand_r4, decode_operand_s,
}
use rafi_emu.Decoder.Results.{unknown_op, class_of}
use rafi_emu.RvTypes.{Xlen}

unfoldable pub decode_f_sign : OpClass → ℕ → Outcome Op
decode_f_sign op_class insn =
    let funct3 = pick insn 12 3 in
    if funct3 == 0b000
    then ok (op op_class OpCode.fsgnj_s (decode_operand_r insn))
    else if funct3 == 0b001
    then ok (op op_class OpCode.fsgnjn_s (decode_operand_r insn))
    else if funct3 == 0b010
    then ok (op op_class OpCode.fsgnjx_s (decode_operand_r insn))
    else unknown_op op_class

unfoldable pub decode_f_min_max : OpClass → ℕ → Outcome Op
decode_f_min_max op_class insn =
    let funct3 = pick insn 12 3 in
    if funct3 == 0b000
    then ok (op op_class OpCode.fmin_s (decode_operand_r insn))
    else if funct3 == 0b001
    then ok (op op_class OpCode.fmax_s (decode_operand_r insn))
    else unknown_op op_class

unfoldable pub decode_f_to_int : OpClass → ℕ → Outcome Op
decode_f_to_int op_class insn =
    let rs2 = pick insn 20 5 in
    if rs2 == 0b00000
    then ok (op op_class OpCode.fcvt_w_s (decode_operand_r insn))
    else if rs2 == 0b00001
    then ok (op op_class OpCode.fcvt_wu_s (decode_operand_r insn))
    else if rs2 == 0b00010 && is_class op_class OpClass.rv64f
    then ok (op op_class OpCode.fcvt_l_s (decode_operand_r insn))
    else if rs2 == 0b00011 && is_class op_class OpClass.rv64f
    then ok (op op_class OpCode.fcvt_lu_s (decode_operand_r insn))
    else unknown_op op_class

unfoldable pub decode_f_move : OpClass → ℕ → Outcome Op
decode_f_move op_class insn =
    let funct3 = pick insn 12 3 in
    let rs2 = pick insn 20 5 in
    if rs2 == 0b00000 && funct3 == 0b000
    then ok (op op_class OpCode.fmv_x_w (decode_operand_r insn))
    else if rs2 == 0b00000 && funct3 == 0b001
    then ok (op op_class OpCode.fclass_s (decode_operand_r insn))
    else unknown_op op_class

unfoldable pub decode_f_compare : OpClass → ℕ → Outcome Op
decode_f_compare op_class insn =
    let funct3 = pick insn 12 3 in
    if funct3 == 0b000
    then ok (op op_class OpCode.fle_s (decode_operand_r insn))
    else if funct3 == 0b001
    then ok (op op_class OpCode.flt_s (decode_operand_r insn))
    else if funct3 == 0b010
    then ok (op op_class OpCode.feq_s (decode_operand_r insn))
    else unknown_op op_class

unfoldable pub decode_f_of_int : OpClass → ℕ → Outcome Op
decode_f_of_int op_class insn =
    let rs2 = pick insn 20 5 in
    if rs2 == 0b00000
    then ok (op op_class OpCode.fcvt_s_w (decode_operand_r insn))
    else if rs2 == 0b00001
    then ok (op op_class OpCode.fcvt_s_wu (decode_operand_r insn))
    else if rs2 == 0b00010 && is_class op_class OpClass.rv64f
    then ok (op op_class OpCode.fcvt_s_l (decode_operand_r insn))
    else if rs2 == 0b00011 && is_class op_class OpClass.rv64f
    then ok (op op_class OpCode.fcvt_s_lu (decode_operand_r insn))
    else unknown_op op_class

unfoldable pub decode_f_op_fp : OpClass → ℕ → Outcome Op
decode_f_op_fp op_class insn =
    let funct3 = pick insn 12 3 in
    let funct7 = pick insn 25 7 in
    let rs2 = pick insn 20 5 in
    if funct7 == 0b0000000
    then ok (op op_class OpCode.fadd_s (decode_operand_r insn))
    else if funct7 == 0b0000100
    then ok (op op_class OpCode.fsub_s (decode_operand_r insn))
    else if funct7 == 0b0001000
    then ok (op op_class OpCode.fmul_s (decode_operand_r insn))
    else if funct7 == 0b0001100
    then ok (op op_class OpCode.fdiv_s (decode_operand_r insn))
    else if funct7 == 0b0101100
    then (if rs2 == 0b00000
        then ok (op op_class OpCode.fsqrt_s (decode_operand_r insn))
        else unknown_op op_class)
    else if funct7 == 0b0010000
    then decode_f_sign op_class insn
    else if funct7 == 0b0010100
    then decode_f_min_max op_class insn
    else if funct7 == 0b1100000
    then decode_f_to_int op_class insn
    else if funct7 == 0b1110000
    then decode_f_move op_class insn
    else if funct7 == 0b1010000
    then decode_f_compare op_class insn
    else if funct7 == 0b1101000
    then decode_f_of_int op_class insn
    else if funct7 == 0b1111000
    then (if rs2 == 0b00000 && funct3 == 0b000
        then ok (op op_class OpCode.fmv_w_x (decode_operand_r insn))
        else unknown_op op_class)
    else unknown_op op_class

unfoldable pub decode_f_op : OpClass → ℕ → Outcome Op
decode_f_op op_class insn =
    let opcode = pick insn 0 7 in
    let funct3 = pick insn 12 3 in
    if opcode == 0b0000111
    then (if funct3 == 0b010
        then ok (op op_class OpCode.flw (decode_operand_i insn))
        else unknown_op op_class)
    else if opcode == 0b0100111
    then (if funct3 == 0b010
        then ok (op op_class OpCode.fsw (decode_operand_s insn))
        else unknown_op op_class)
    else if opcode == 0b1000011
    then ok (op op_class OpCode.fmadd_s (decode_operand_r4 insn))
    else if opcode == 0b1000111
    then ok (op op_class OpCode.fmsub_s (decode_operand_r4 insn))
    else if opcode == 0b1001011
    then ok (op op_class OpCode.fnmsub_s (decode_operand_r4 insn))
    else if opcode == 0b1001111
    then ok (op op_class OpCode.fnmadd_s (decode_operand_r4 insn))
    else if opcode == 0b1010011
    then decode_f_op_fp op_class insn
    else unknown_op op_class

unfoldable pub decode_f : Xlen → ℕ → Outcome Op
decode_f xlen insn =
    class_of xlen OpClass.rv32f OpClass.rv64f >>= λ op_class. decode_f_op op_class insn
