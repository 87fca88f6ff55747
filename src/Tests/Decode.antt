-- ===== src/Tests/Decode.antt =====
-- The theorems on the decoder, at concrete words.
use rafi_emu.Common.{◌%◌, ◌≡◌, refl, ok, Returns, arith}
use rafi_emu.Word.{sign_extend}
use rafi_emu.RvTypes.{xlen32, xlen64}
use rafi_emu.Op.{OpCode, op, operand_r, operand_s, operand_b, operand_j}
use rafi_emu.Decoder.{is_compressed_instruction, decode32}
use rafi_emu.Decoder.Operand.{decode_operand_s, decode_operand_b, decode_operand_j}
use rafi_emu.Decoder.Words.{IsDecoded, decode32-IsDecoded}
use rafi_emu.Decoder.Formats.{
  r_word, s_word, b_word, j_word, decode_operand_s-s_word, decode_operand_b-b_word,
  decode_operand_j-j_word,
}
use rafi_emu.Decoder.RFormat.{
  sub_code, mulhu_code, base_class, mul_div_class, decode32-r_word, decode32-mul_div_word,
}

-- `addi a0, a0, 1`
decode32-IsDecoded_example :
    Returns (IsDecoded xlen64 (is_compressed_instruction 0x00150513)) (decode32 xlen64 0x00150513)
decode32-IsDecoded_example = decode32-IsDecoded xlen64 0x00150513 (λ e. cc)

-- `sub t0, t1, t2`
decode32-r_word_example :
    decode32 xlen64 (r_word 0b0110011 5 0 6 7 32)
    ≡ ok (op (base_class xlen64) OpCode.sub (operand_r 5 6 7 0 (32 % 32)))
decode32-r_word_example =
    decode32-r_word xlen64 OpCode.sub 5 6 7 0 32 (λ e. cc) sub_code (omega arith) (omega arith)
      (omega arith)

-- `mulhu t0, t1, t2`
decode32-mul_div_word_example :
    decode32 xlen32 (r_word 0b0110011 5 3 6 7 1)
    ≡ ok (op (mul_div_class xlen32) OpCode.mulhu (operand_r 5 6 7 3 1))
decode32-mul_div_word_example =
    decode32-mul_div_word xlen32 OpCode.mulhu 5 6 7 3 (λ e. cc) mulhu_code (omega arith)
      (omega arith) (omega arith)

-- `sw t2, -4(t1)`
decode_operand_s-s_word_example :
    decode_operand_s (s_word 0b0100011 2 6 7 0xffc) ≡ operand_s (sign_extend 64 12 0xffc) 6 7 2
decode_operand_s-s_word_example =
    decode_operand_s-s_word 0b0100011 2 6 7 0xffc (omega arith) (omega arith) (omega arith)
      (omega arith) (omega arith)

-- `bne t1, t2, .-6`
decode_operand_b-b_word_example :
    decode_operand_b (b_word 0b1100011 1 6 7 0x1ffa) ≡ operand_b (sign_extend 64 13 0x1ffa) 6 7 1
decode_operand_b-b_word_example =
    decode_operand_b-b_word 0b1100011 1 6 7 0x1ffa (omega arith) (omega arith) (omega arith)
      (omega arith) (omega arith) refl

-- `jal ra, .+0x12346`
decode_operand_j-j_word_example :
    decode_operand_j (j_word 0b1101111 1 0x12346) ≡ operand_j (sign_extend 64 21 0x12346) 1
decode_operand_j-j_word_example =
    decode_operand_j-j_word 0b1101111 1 0x12346 (omega arith) (omega arith) (omega arith) refl
