-- ===== src/Decoder/Atomic.antt =====
-- src/librafi_common/DecoderImpl.cpp: `DecodeA`.
use rafi_emu.Common.{ℕ, ◌==◌, ◌&&◌, if◌then◌else◌, Outcome, ◌>>=◌, ok}
use rafi_emu.Op.{OpClass, OpCode, Op, is_class, op}
use rafi_emu.Decoder.Operand.{pick, decode_operand_r}
use rafi_emu.Decoder.Results.{unknown_op, class_of}
use rafi_emu.RvTypes.{Xlen}

unfoldable pub decode_a_word : OpClass → ℕ → Outcome Op
decode_a_word op_class insn =
    let rs2 = pick insn 20 5 in
    let funct5 = pick insn 27 5 in
    if funct5 == 0b00010 && rs2 == 0b00000
    then ok (op op_class OpCode.lr_w (decode_operand_r insn))
    else if funct5 == 0b00011
    then ok (op op_class OpCode.sc_w (decode_operand_r insn))
    else if funct5 == 0b00001
    then ok (op op_class OpCode.amoswap_w (decode_operand_r insn))
    else if funct5 == 0b00000
    then ok (op op_class OpCode.amoadd_w (decode_operand_r insn))
    else if funct5 == 0b00100
    then ok (op op_class OpCode.amoxor_w (decode_operand_r insn))
    else if funct5 == 0b01100
    then ok (op op_class OpCode.amoand_w (decode_operand_r insn))
    else if funct5 == 0b01000
    then ok (op op_class OpCode.amoor_w (decode_operand_r insn))
    else if funct5 == 0b10000
    then ok (op op_class OpCode.amomin_w (decode_operand_r insn))
    else if funct5 == 0b10100
    then ok (op op_class OpCode.amomax_w (decode_operand_r insn))
    else if funct5 == 0b11000
    then ok (op op_class OpCode.amominu_w (decode_operand_r insn))
    else if funct5 == 0b11100
    then ok (op op_class OpCode.amomaxu_w (decode_operand_r insn))
    else unknown_op op_class

unfoldable pub decode_a_double : OpClass → ℕ → Outcome Op
decode_a_double op_class insn =
    let rs2 = pick insn 20 5 in
    let funct5 = pick insn 27 5 in
    if is_class op_class OpClass.rv64a && funct5 == 0b00010 && rs2 == 0b00000
    then ok (op op_class OpCode.lr_d (decode_operand_r insn))
    else if is_class op_class OpClass.rv64a && funct5 == 0b00011
    then ok (op op_class OpCode.sc_d (decode_operand_r insn))
    else if is_class op_class OpClass.rv64a && funct5 == 0b00001
    then ok (op op_class OpCode.amoswap_d (decode_operand_r insn))
    else if is_class op_class OpClass.rv64a && funct5 == 0b00000
    then ok (op op_class OpCode.amoadd_d (decode_operand_r insn))
    else if is_class op_class OpClass.rv64a && funct5 == 0b00100
    then ok (op op_class OpCode.amoxor_d (decode_operand_r insn))
    else if is_class op_class OpClass.rv64a && funct5 == 0b01100
    then ok (op op_class OpCode.amoand_d (decode_operand_r insn))
    else if is_class op_class OpClass.rv64a && funct5 == 0b01000
    then ok (op op_class OpCode.amoor_d (decode_operand_r insn))
    else if is_class op_class OpClass.rv64a && funct5 == 0b10000
    then ok (op op_class OpCode.amomin_d (decode_operand_r insn))
    else if is_class op_class OpClass.rv64a && funct5 == 0b10100
    then ok (op op_class OpCode.amomax_d (decode_operand_r insn))
    else if is_class op_class OpClass.rv64a && funct5 == 0b11000
    then ok (op op_class OpCode.amominu_d (decode_operand_r insn))
    else if is_class op_class OpClass.rv64a && funct5 == 0b11100
    then ok (op op_class OpCode.amomaxu_d (decode_operand_r insn))
    else unknown_op op_class

unfoldable pub decode_a_op : OpClass → ℕ → Outcome Op
decode_a_op op_class insn =
    let funct3 = pick insn 12 3 in
    if funct3 == 0b010
    then decode_a_word op_class insn
    else if funct3 == 0b011
    then decode_a_double op_class insn
    else unknown_op op_class

unfoldable pub decode_a : Xlen → ℕ → Outcome Op
decode_a xlen insn =
    class_of xlen OpClass.rv32a OpClass.rv64a >>= λ op_class. decode_a_op op_class insn
