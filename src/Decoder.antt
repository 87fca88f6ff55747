-- ===== src/Decoder.antt =====
-- src/librafi_common/DecoderImpl.cpp: `DecoderImpl`, whose state is the XLEN.
pub mod Operand
pub mod OperandC
pub mod Results
pub mod IntegerOps
pub mod Integer
pub mod MulDiv
pub mod Atomic
pub mod Single
pub mod Double
pub mod Compressed
pub mod Registers
pub mod RegistersC
pub mod Total
pub mod Words
pub mod Formats
pub mod RFormat
use rafi_emu.Common.{ℕ, Bool, not, ◌==◌, ◌&&◌, ◌||◌, if◌then◌else◌, ◌%◌, ◌^◌, bit_and, Outcome}
use rafi_emu.RvTypes.{Xlen}
use rafi_emu.Op.{Op}
use Operand.{pick}
use Integer.{decode_i}
use MulDiv.{decode_m}
use Atomic.{decode_a}
use Single.{decode_f}
use Double.{decode_d}
use Compressed.{decode_c}

unfoldable pub is_compressed_instruction : ℕ → Bool
is_compressed_instruction insn = not (bit_and insn 0b11 == 0b11)

-- The conditions of `Decode`, in order.
abbrev pub is_m : ℕ → Bool
is_m insn =
    let opcode = pick insn 0 7 in
    let funct7 = pick insn 25 7 in
    (opcode == 0b0110011 && funct7 == 0b0000001) || (opcode == 0b0111011 && funct7 == 0b0000001)

abbrev pub is_a : ℕ → Bool
is_a insn =
    let opcode = pick insn 0 7 in
    let funct3 = pick insn 12 3 in
    (opcode == 0b0101111 && funct3 == 0b010) || (opcode == 0b0101111 && funct3 == 0b011)

abbrev pub is_f : ℕ → Bool
is_f insn =
    let opcode = pick insn 0 7 in
    let funct3 = pick insn 12 3 in
    let funct7 = pick insn 25 7 in
    let funct2 = pick insn 25 2 in
    (opcode == 0b0000111 && funct3 == 0b010)
    || ((opcode == 0b0100111 && funct3 == 0b010)
        || ((opcode == 0b1000011 && funct2 == 0b00)
            || ((opcode == 0b1000111 && funct2 == 0b00)
                || ((opcode == 0b1001011 && funct2 == 0b00)
                    || ((opcode == 0b1001111 && funct2 == 0b00)
                        || (opcode == 0b1010011
                            && (funct2 == 0b00 && not (funct7 == 0b0100000))))))))

abbrev pub is_d : ℕ → Bool
is_d insn =
    let opcode = pick insn 0 7 in
    let funct3 = pick insn 12 3 in
    let funct7 = pick insn 25 7 in
    let funct2 = pick insn 25 2 in
    (opcode == 0b0000111 && funct3 == 0b011)
    || ((opcode == 0b0100111 && funct3 == 0b011)
        || ((opcode == 0b1000011 && funct2 == 0b01)
            || ((opcode == 0b1000111 && funct2 == 0b01)
                || ((opcode == 0b1001011 && funct2 == 0b01)
                    || ((opcode == 0b1001111 && funct2 == 0b01)
                        || ((opcode == 0b1010011 && funct2 == 0b01)
                            || (opcode == 0b1010011 && funct7 == 0b0100000)))))))

-- `Decode(uint16_t)`
unfoldable pub decode16 : Xlen → ℕ → Outcome Op
decode16 xlen insn = decode_c xlen insn

-- `Decode(uint32_t)`
unfoldable pub decode32 : Xlen → ℕ → Outcome Op
decode32 xlen insn =
    if is_compressed_instruction insn
    then decode_c xlen (insn % 2 ^ 16)
    else if is_m insn
    then decode_m xlen insn
    else if is_a insn
    then decode_a xlen insn
    else if is_f insn
    then decode_f xlen insn
    else if is_d insn
    then decode_d xlen insn
    else decode_i xlen insn
