-- ===== src/Decoder/Integer.antt =====
-- src/librafi_common/DecoderImpl.cpp: `DecodeI`.
use rafi_emu.Common.{ℕ, ◌==◌, if◌then◌else◌, Outcome, ◌>>=◌, ok}
use rafi_emu.Op.{OpClass, OpCode, Op, op}
use rafi_emu.Decoder.Operand.{pick, decode_operand_i, decode_operand_j, decode_operand_u}
use rafi_emu.Decoder.Results.{unknown_op, class_of}
use rafi_emu.RvTypes.{Xlen}
use rafi_emu.Decoder.IntegerOps.{
  decode_i_branch, decode_i_load, decode_i_store, decode_i_op_imm, decode_i_alu, decode_i_op_imm_32,
  decode_i_alu_32, decode_i_fence, decode_i_system,
}

unfoldable pub decode_i_op : OpClass → ℕ → Outcome Op
decode_i_op op_class insn =
    let opcode = pick insn 0 7 in
    let funct3 = pick insn 12 3 in
    if opcode == 0b0110111
    then ok (op op_class OpCode.lui (decode_operand_u insn))
    else if opcode == 0b0010111
    then ok (op op_class OpCode.auipc (decode_operand_u insn))
    else if opcode == 0b1101111
    then ok (op op_class OpCode.jal (decode_operand_j insn))
    else if opcode == 0b1100111
    then (if funct3 == 0
        then ok (op op_class OpCode.jalr (decode_operand_i insn))
        else unknown_op op_class)
    else if opcode == 0b1100011
    then decode_i_branch op_class insn
    else if opcode == 0b0000011
    then decode_i_load op_class insn
    else if opcode == 0b0100011
    then decode_i_store op_class insn
    else if opcode == 0b0010011
    then decode_i_op_imm op_class insn
    else if opcode == 0b0110011
    then decode_i_alu op_class insn
    else if opcode == 0b0011011
    then decode_i_op_imm_32 op_class insn
    else if opcode == 0b0111011
    then decode_i_alu_32 op_class insn
    else if opcode == 0b0001111
    then decode_i_fence op_class insn
    else if opcode == 0b1110011
    then decode_i_system op_class insn
    else unknown_op op_class

unfoldable pub decode_i : Xlen → ℕ → Outcome Op
decode_i xlen insn =
    class_of xlen OpClass.rv32i OpClass.rv64i >>= λ op_class. decode_i_op op_class insn
