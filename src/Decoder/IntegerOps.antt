-- ===== src/Decoder/IntegerOps.antt =====
-- src/librafi_common/DecoderImpl.cpp: the cases of `DecodeI`, by major opcode.
use rafi_emu.Common.{ℕ, ◌==◌, ◌&&◌, if◌then◌else◌, Outcome, ok}
use rafi_emu.Op.{OpClass, OpCode, Op, is_class, op, operand_none}
use rafi_emu.Decoder.Operand.{
  pick, decode_operand_b, decode_operand_csr, decode_operand_csr_imm, decode_operand_fence,
  decode_operand_i, decode_operand_r, decode_operand_s, decode_operand_shift_imm_32,
  decode_operand_shift_imm_64,
}
use rafi_emu.Decoder.Results.{unknown_op}

unfoldable pub decode_i_branch : OpClass → ℕ → Outcome Op
decode_i_branch op_class insn =
    let funct3 = pick insn 12 3 in
    if funct3 == 0
    then ok (op op_class OpCode.beq (decode_operand_b insn))
    else if funct3 == 1
    then ok (op op_class OpCode.bne (decode_operand_b insn))
    else if funct3 == 4
    then ok (op op_class OpCode.blt (decode_operand_b insn))
    else if funct3 == 5
    then ok (op op_class OpCode.bge (decode_operand_b insn))
    else if funct3 == 6
    then ok (op op_class OpCode.bltu (decode_operand_b insn))
    else if funct3 == 7
    then ok (op op_class OpCode.bgeu (decode_operand_b insn))
    else unknown_op op_class

unfoldable pub decode_i_load : OpClass → ℕ → Outcome Op
decode_i_load op_class insn =
    let funct3 = pick insn 12 3 in
    if funct3 == 0
    then ok (op op_class OpCode.lb (decode_operand_i insn))
    else if funct3 == 1
    then ok (op op_class OpCode.lh (decode_operand_i insn))
    else if funct3 == 2
    then ok (op op_class OpCode.lw (decode_operand_i insn))
    else if funct3 == 3 && is_class op_class OpClass.rv64i
    then ok (op op_class OpCode.ld (decode_operand_i insn))
    else if funct3 == 4
    then ok (op op_class OpCode.lbu (decode_operand_i insn))
    else if funct3 == 5
    then ok (op op_class OpCode.lhu (decode_operand_i insn))
    else if funct3 == 6 && is_class op_class OpClass.rv64i
    then ok (op op_class OpCode.lwu (decode_operand_i insn))
    else unknown_op op_class

unfoldable pub decode_i_store : OpClass → ℕ → Outcome Op
decode_i_store op_class insn =
    let funct3 = pick insn 12 3 in
    if funct3 == 0
    then ok (op op_class OpCode.sb (decode_operand_s insn))
    else if funct3 == 1
    then ok (op op_class OpCode.sh (decode_operand_s insn))
    else if funct3 == 2
    then ok (op op_class OpCode.sw (decode_operand_s insn))
    else if funct3 == 3 && is_class op_class OpClass.rv64i
    then ok (op op_class OpCode.sd (decode_operand_s insn))
    else unknown_op op_class

unfoldable pub decode_i_op_imm : OpClass → ℕ → Outcome Op
decode_i_op_imm op_class insn =
    let funct3 = pick insn 12 3 in
    let funct6 = pick insn 26 6 in
    let funct7 = pick insn 25 7 in
    if funct3 == 0
    then ok (op op_class OpCode.addi (decode_operand_i insn))
    else if funct3 == 1 && is_class op_class OpClass.rv32i && funct7 == 0b0000000
    then ok (op op_class OpCode.slli (decode_operand_shift_imm_32 insn))
    else if funct3 == 1 && is_class op_class OpClass.rv64i && funct6 == 0b000000
    then ok (op op_class OpCode.slli (decode_operand_shift_imm_64 insn))
    else if funct3 == 2
    then ok (op op_class OpCode.slti (decode_operand_i insn))
    else if funct3 == 3
    then ok (op op_class OpCode.sltiu (decode_operand_i insn))
    else if funct3 == 4
    then ok (op op_class OpCode.xori (decode_operand_i insn))
    else if funct3 == 5 && is_class op_class OpClass.rv32i && funct7 == 0b0000000
    then ok (op op_class OpCode.srli (decode_operand_shift_imm_32 insn))
    else if funct3 == 5 && is_class op_class OpClass.rv32i && funct7 == 0b0100000
    then ok (op op_class OpCode.srai (decode_operand_shift_imm_32 insn))
    else if funct3 == 5 && is_class op_class OpClass.rv64i && funct6 == 0b000000
    then ok (op op_class OpCode.srli (decode_operand_shift_imm_64 insn))
    else if funct3 == 5 && is_class op_class OpClass.rv64i && funct6 == 0b010000
    then ok (op op_class OpCode.srai (decode_operand_shift_imm_64 insn))
    else if funct3 == 6
    then ok (op op_class OpCode.ori (decode_operand_i insn))
    else if funct3 == 7
    then ok (op op_class OpCode.andi (decode_operand_i insn))
    else unknown_op op_class

unfoldable pub decode_i_alu : OpClass → ℕ → Outcome Op
decode_i_alu op_class insn =
    let funct3 = pick insn 12 3 in
    let funct7 = pick insn 25 7 in
    if funct7 == 0b0000000
    then (if funct3 == 0
        then ok (op op_class OpCode.add (decode_operand_r insn))
        else if funct3 == 1
        then ok (op op_class OpCode.sll (decode_operand_r insn))
        else if funct3 == 2
        then ok (op op_class OpCode.slt (decode_operand_r insn))
        else if funct3 == 3
        then ok (op op_class OpCode.sltu (decode_operand_r insn))
        else if funct3 == 4
        then ok (op op_class OpCode.xor_ (decode_operand_r insn))
        else if funct3 == 5
        then ok (op op_class OpCode.srl (decode_operand_r insn))
        else if funct3 == 6
        then ok (op op_class OpCode.or_ (decode_operand_r insn))
        else if funct3 == 7
        then ok (op op_class OpCode.and_ (decode_operand_r insn))
        else unknown_op op_class)
    else if funct7 == 0b0100000
    then (if funct3 == 0
        then ok (op op_class OpCode.sub (decode_operand_r insn))
        else if funct3 == 5
        then ok (op op_class OpCode.sra (decode_operand_r insn))
        else unknown_op op_class)
    else unknown_op op_class

unfoldable pub decode_i_op_imm_32 : OpClass → ℕ → Outcome Op
decode_i_op_imm_32 op_class insn =
    let funct3 = pick insn 12 3 in
    let funct7 = pick insn 25 7 in
    if is_class op_class OpClass.rv64i && funct3 == 0b000
    then ok (op op_class OpCode.addiw (decode_operand_i insn))
    else if is_class op_class OpClass.rv64i && funct3 == 0b001 && funct7 == 0b0000000
    then ok (op op_class OpCode.slliw (decode_operand_shift_imm_32 insn))
    else if is_class op_class OpClass.rv64i && funct3 == 0b101 && funct7 == 0b0000000
    then ok (op op_class OpCode.srliw (decode_operand_shift_imm_32 insn))
    else if is_class op_class OpClass.rv64i && funct3 == 0b101 && funct7 == 0b0100000
    then ok (op op_class OpCode.sraiw (decode_operand_shift_imm_32 insn))
    else unknown_op op_class

unfoldable pub decode_i_alu_32 : OpClass → ℕ → Outcome Op
decode_i_alu_32 op_class insn =
    let funct3 = pick insn 12 3 in
    let funct7 = pick insn 25 7 in
    if is_class op_class OpClass.rv64i && funct3 == 0b000 && funct7 == 0b0000000
    then ok (op op_class OpCode.addw (decode_operand_r insn))
    else if is_class op_class OpClass.rv64i && funct3 == 0b000 && funct7 == 0b0100000
    then ok (op op_class OpCode.subw (decode_operand_r insn))
    else if is_class op_class OpClass.rv64i && funct3 == 0b001 && funct7 == 0b0000000
    then ok (op op_class OpCode.sllw (decode_operand_r insn))
    else if is_class op_class OpClass.rv64i && funct3 == 0b101 && funct7 == 0b0000000
    then ok (op op_class OpCode.srlw (decode_operand_r insn))
    else if is_class op_class OpClass.rv64i && funct3 == 0b101 && funct7 == 0b0100000
    then ok (op op_class OpCode.sraw (decode_operand_r insn))
    else unknown_op op_class

unfoldable pub decode_i_fence : OpClass → ℕ → Outcome Op
decode_i_fence op_class insn =
    let funct3 = pick insn 12 3 in
    let funct12 = pick insn 20 12 in
    let rd = pick insn 7 5 in
    let rs1 = pick insn 15 5 in
    if funct3 == 0 && rd == 0 && rs1 == 0 && pick insn 28 4 == 0
    then ok (op op_class OpCode.fence (decode_operand_fence insn))
    else if funct3 == 1 && rd == 0 && rs1 == 0 && funct12 == 0
    then ok (op op_class OpCode.fence_i (decode_operand_fence insn))
    else unknown_op op_class

unfoldable pub decode_i_system : OpClass → ℕ → Outcome Op
decode_i_system op_class insn =
    let funct3 = pick insn 12 3 in
    let funct7 = pick insn 25 7 in
    let funct12 = pick insn 20 12 in
    let rd = pick insn 7 5 in
    let rs1 = pick insn 15 5 in
    if funct3 == 0 && rd == 0
    then (if funct7 == 0b0001001
        then ok (op op_class OpCode.sfence_vma (decode_operand_r insn))
        else if rs1 == 0
        then (if funct12 == 0b000000000000
            then ok (op op_class OpCode.ecall operand_none)
            else if funct12 == 0b000000000001
            then ok (op op_class OpCode.ebreak operand_none)
            else if funct12 == 0b000000000010
            then ok (op op_class OpCode.uret operand_none)
            else if funct12 == 0b000100000010
            then ok (op op_class OpCode.sret operand_none)
            else if funct12 == 0b000100000101
            then ok (op op_class OpCode.wfi operand_none)
            else if funct12 == 0b001100000010
            then ok (op op_class OpCode.mret operand_none)
            else unknown_op op_class)
        else unknown_op op_class)
    else if funct3 == 1
    then ok (op op_class OpCode.csrrw (decode_operand_csr insn))
    else if funct3 == 2
    then ok (op op_class OpCode.csrrs (decode_operand_csr insn))
    else if funct3 == 3
    then ok (op op_class OpCode.csrrc (decode_operand_csr insn))
    else if funct3 == 5
    then ok (op op_class OpCode.csrrwi (decode_operand_csr_imm insn))
    else if funct3 == 6
    then ok (op op_class OpCode.csrrsi (decode_operand_csr_imm insn))
    else if funct3 == 7
    then ok (op op_class OpCode.csrrci (decode_operand_csr_imm insn))
    else unknown_op op_class
