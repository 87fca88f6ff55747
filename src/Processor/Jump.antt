-- ===== src/Processor/Jump.antt =====
-- src/rafi-emu/cpu: JAL from its word to the registers.
use rafi_emu.Common.{ℕ, ◌+◌, ◌%◌, ◌^◌, ◌<◌, ◌≡◌, ◌≢◌, refl, ◌∙◌, arith, bit_and, false, ok, set}
use rafi_emu.Bits.Fields.{bit_and_mask}
use rafi_emu.Word.{u64, sign_extend}
use rafi_emu.RvTypes.{xlen64}
use rafi_emu.Bus.{Io}
use rafi_emu.Csr.{set_program_counter}
use rafi_emu.RegFile.Laws.{write_int64-run}
use rafi_emu.Op.{Op, OpClass, OpCode, op, operand_j}
use rafi_emu.Decoder.{is_compressed_instruction, decode32}
use rafi_emu.Decoder.Operand.{pick}
use rafi_emu.Decoder.Registers.{pick-mod}
use rafi_emu.Decoder.Integer.{decode_i_op, decode_i}
use rafi_emu.Decoder.Formats.{j_word, decode_operand_j-j_word}
use rafi_emu.Executor.Machine.{Machine, Wide, ◌>>=◌, ◌>>◌, lift, write_x64, set_pc}
use rafi_emu.Executor.Rv64I.{process_rv64i_jal}
use rafi_emu.Executor.Integer64.{process_rv64i_code, process_rv64i}
use rafi_emu.Executor.Process.{Floating, process_op_class, process_op}
use rafi_emu.Executor.PreCheckAll.{pre_check_trap, pre_check_trap_class, pre_check_trap_code}
use rafi_emu.Executor.Checks.{post_check_trap, post_check_trap_code}
use rafi_emu.Executor.Keeps.{IsMachine}
use rafi_emu.Processor.Step.{
  raise_if, execute, execute_unless, execute_checked, is_unknown, process_insn,
}

abbrev jal_op : ℕ → ℕ → Op
jal_op rd imm = op OpClass.rv64i OpCode.jal (operand_j imm rd)

module _ (rd imm : ℕ) (hd : rd < 32) (hi : imm < 2 ^ 21) where
  abbrev word : ℕ
  word = j_word 0b1101111 rd imm

  opcode_of_word : pick word 0 7 ≡ 0b1101111
  opcode_of_word = pick-mod word 0 7 ∙ omega arith

  not_compressed : is_compressed_instruction word ≡ false
  unfolding is_compressed_instruction
  not_compressed = let low : bit_and word 0b11 ≡ 3 = bit_and_mask 2 _ ∙ omega arith in rw low refl

  decode32-j_word : imm % 2 ≡ 0 → decode32 xlen64 word ≡ ok (jal_op rd (sign_extend 64 21 imm))
  unfolding decode32 decode_i decode_i_op
  decode32-j_word even =
      rw
        (
          not_compressed,
          opcode_of_word,
          decode_operand_j-j_word 0b1101111 rd imm (omega arith) hd hi even,
        )
        refl

module _ {D : Type 0} ⦃io : Io D⦄ ⦃wide : Wide⦄ ⦃floating : Floating D⦄ where
  -- On RV64, the word of JAL at `pc` with an even offset of 21 bits and a register rd other than x0,
  -- run from a machine whose register file has 32 entries and 0 in x0, stores `pc + 4` in rd, sets
  -- the program counter to `pc` plus the offset extended by its sign, and changes nothing else.
  pub process_insn-j_word :
      (m : Machine D) (rd imm pc : ℕ)
      → rd < 32
      → rd ≢ 0
      → imm < 2 ^ 21
      → imm % 2 ≡ 0
      → IsMachine m
      → process_insn xlen64 (j_word 0b1101111 rd imm) pc m
        ≡ ok (
          tt,
          record m {
            csr = set_program_counter m.csr (u64 (pc + sign_extend 64 21 imm));
            int_reg_file = record { entries = set m.int_reg_file.entries rd (u64 (pc + 4)) };
          },
        )
  unfolding process_insn execute_checked execute_unless execute raise_if is_unknown ◌>>=◌ ◌>>◌ lift
      set_pc set_program_counter write_x64 process_op process_op_class process_rv64i
      process_rv64i_code process_rv64i_jal pre_check_trap pre_check_trap_class pre_check_trap_code
      post_check_trap post_check_trap_code
  process_insn-j_word m rd imm pc hd h0 hi even w =
      rw
        (
          decode32-j_word rd imm hd hi even,
          not_compressed rd imm hd hi,
          write_int64-run m.int_reg_file rd (u64 (pc + 4)) hd h0 w.size,
        )
        refl
