-- ===== src/Decoder/MulDiv.antt =====
-- src/librafi_common/DecoderImpl.cpp: `DecodeM`.
use rafi_emu.Common.{ℕ, ◌==◌, ◌&&◌, if◌then◌else◌, Outcome, ◌>>=◌, ok, throws}
use rafi_emu.Op.{OpClass, OpCode, Op, is_class, op}
use rafi_emu.Decoder.Operand.{pick, decode_operand_r}
use rafi_emu.Decoder.Results.{class_of}
use rafi_emu.RvTypes.{Xlen}

unfoldable pub decode_m_alu : OpClass → ℕ → Outcome Op
decode_m_alu op_class insn =
    let funct3 = pick insn 12 3 in
    if funct3 == 0b000
    then ok (op op_class OpCode.mul (decode_operand_r insn))
    else if funct3 == 0b001
    then ok (op op_class OpCode.mulh (decode_operand_r insn))
    else if funct3 == 0b010
    then ok (op op_class OpCode.mulhsu (decode_operand_r insn))
    else if funct3 == 0b011
    then ok (op op_class OpCode.mulhu (decode_operand_r insn))
    else if funct3 == 0b100
    then ok (op op_class OpCode.div (decode_operand_r insn))
    else if funct3 == 0b101
    then ok (op op_class OpCode.divu (decode_operand_r insn))
    else if funct3 == 0b110
    then ok (op op_class OpCode.rem (decode_operand_r insn))
    else ok (op op_class OpCode.remu (decode_operand_r insn))

unfoldable pub decode_m_alu_32 : OpClass → ℕ → Outcome Op
decode_m_alu_32 op_class insn =
    let funct3 = pick insn 12 3 in
    if is_class op_class OpClass.rv64m && funct3 == 0b000
    then ok (op op_class OpCode.mulw (decode_operand_r insn))
    else if is_class op_class OpClass.rv64m && funct3 == 0b100
    then ok (op op_class OpCode.divw (decode_operand_r insn))
    else if is_class op_class OpClass.rv64m && funct3 == 0b101
    then ok (op op_class OpCode.divuw (decode_operand_r insn))
    else if is_class op_class OpClass.rv64m && funct3 == 0b110
    then ok (op op_class OpCode.remw (decode_operand_r insn))
    else if is_class op_class OpClass.rv64m && funct3 == 0b111
    then ok (op op_class OpCode.remuw (decode_operand_r insn))
    else ok (op op_class OpCode.unknown (decode_operand_r insn))

unfoldable pub decode_m_op : OpClass → ℕ → Outcome Op
decode_m_op op_class insn =
    let opcode = pick insn 0 7 in
    if opcode == 0b0110011
    then decode_m_alu op_class insn
    else if opcode == 0b0111011
    then decode_m_alu_32 op_class insn
    else throws

unfoldable pub decode_m : Xlen → ℕ → Outcome Op
decode_m xlen insn =
    class_of xlen OpClass.rv32m OpClass.rv64m >>= λ op_class. decode_m_op op_class insn
