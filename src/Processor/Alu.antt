-- ===== src/Processor/Alu.antt =====
-- src/rafi-emu/cpu: a register-register instruction of RV64I from the decoder to the registers.
use rafi_emu.Common.{
  ℕ, ◌+◌, ◌-◌, ◌*◌, ◌/◌, ◌%◌, ◌^◌, ◌≡◌, refl, arith, bit_and, bit_or, if◌then◌else◌, ltb, lt→ltb,
  ok, false, ◌<◌, ◌≢◌, none, some, get_elem?, set,
}
use Prim.Native.Nat.{bit_xor}
use rafi_emu.Bits.Fields.{bit_and_mask}
use rafi_emu.Bus.{Io}
use rafi_emu.RegFile.Integer.{IntRegFile, read_int32, read_int64, write_int64}
use rafi_emu.Op.{Op, OpClass, OpCode, op, operand_r}
use rafi_emu.Decoder.RFormat.{
  IsBase, add_code, sub_code, sll_code, slt_code, sltu_code, xor_code, srl_code, sra_code, or_code,
  and_code, decode32-r_word, not_compressed, base_bounds,
}
use rafi_emu.Executor.Arith.{
  less, is_negative, bit_not, shift_left, shift_right, shift_right_signed,
}
use rafi_emu.Executor.Machine.{
  Machine, Wide, ◌>>=◌, lift, read_x32, read_x64, write_x64, set_pc, ◌>>◌,
}
use rafi_emu.Executor.Values64.{alu_rv64i, shift_rv64i}
use rafi_emu.Executor.Rv64I.{process_rv64i_alu, process_rv64i_shift}
use rafi_emu.Executor.Integer64.{process_rv64i_code, process_rv64i}
use rafi_emu.Executor.Process.{Floating, process_op_class, process_op}
use rafi_emu.RvTypes.{xlen64}
use rafi_emu.Word.{u64}
use rafi_emu.Csr.{set_program_counter}
use rafi_emu.RegFile.Laws.{read_int64-entry, read_int32-entry, write_int64-run}
use rafi_emu.Executor.Checks.{post_check_trap, post_check_trap_code}
use rafi_emu.Executor.PreCheckAll.{pre_check_trap, pre_check_trap_class, pre_check_trap_code}
use rafi_emu.Executor.Keeps.{IsMachine}
use rafi_emu.Decoder.Formats.{r_word}
use rafi_emu.Processor.Step.{
  raise_if, execute, execute_unless, execute_checked, is_unknown, process_insn,
}

-- What the manual says that the instructions compute, on words of 64 bits; a shift takes the low
-- six bits of `b`.
abbrev pub value64 : OpCode → ℕ → ℕ → ℕ
value64 OpCode.add a b = (a + b) % 2 ^ 64
value64 OpCode.sub a b = (a + (2 ^ 64 - b)) % 2 ^ 64
value64 OpCode.sll a b = a * 2 ^ (b % 64) % 2 ^ 64
value64 OpCode.slt a b = if less 64 a b then 1 else 0
value64 OpCode.sltu a b = if ltb a b then 1 else 0
value64 OpCode.xor_ a b = bit_xor a b
value64 OpCode.srl a b = a / 2 ^ (b % 64)
value64 OpCode.sra a b =
    if is_negative 64 a then bit_not 64 (bit_not 64 a / 2 ^ (b % 64)) else a / 2 ^ (b % 64)
value64 OpCode.or_ a b = bit_or a b
value64 OpCode.and_ a b = bit_and a b
value64 _ a b = 0

masked : (n : ℕ) → bit_and n 0x3f ≡ n % 64
masked n = bit_and_mask 6 n

shift_left-run : (a b : ℕ) → shift_left 64 a (bit_and b 0x3f) ≡ ok (a * 2 ^ (b % 64) % 2 ^ 64)
unfolding shift_left
shift_left-run a b = rw (masked b, lt→ltb (b % 64) 64 (omega arith)) refl

shift_right-run : (a b : ℕ) → shift_right 64 a (bit_and b 0x3f) ≡ ok (a / 2 ^ (b % 64))
unfolding shift_right
shift_right-run a b = rw (masked b, lt→ltb (b % 64) 64 (omega arith)) refl

shift_right_signed-run :
    (a b : ℕ) → shift_right_signed 64 a (bit_and b 0x3f) ≡ ok (value64 OpCode.sra a b)
unfolding shift_right_signed
shift_right_signed-run a b = rw (masked b, lt→ltb (b % 64) 64 (omega arith)) refl

abbrev r_op : OpCode → ℕ → ℕ → ℕ → ℕ → ℕ → Op
r_op code rd rs1 rs2 f3 f7 = op OpClass.rv64i code (operand_r rd rs1 rs2 f3 f7)

known_code : (code : OpCode) (f3 f7 : ℕ) → IsBase code f3 f7 → is_unknown code ≡ false
unfolding is_unknown
known_code _ _ _ add_code = refl
known_code _ _ _ sub_code = refl
known_code _ _ _ sll_code = refl
known_code _ _ _ slt_code = refl
known_code _ _ _ sltu_code = refl
known_code _ _ _ xor_code = refl
known_code _ _ _ srl_code = refl
known_code _ _ _ sra_code = refl
known_code _ _ _ or_code = refl
known_code _ _ _ and_code = refl

module _ {D : Type 0} ⦃io : Io D⦄ ⦃wide : Wide⦄ ⦃floating : Floating D⦄ where
  run_alu :
      (m : Machine D) (g : IntRegFile) (rd rs1 rs2 a b a32 b32 f3 f7 pc : ℕ) (code : OpCode)
      (k3 k7 : ℕ)
      → IsBase code k3 k7
      → read_int64 m.int_reg_file rs1 ≡ ok a
      → read_int64 m.int_reg_file rs2 ≡ ok b
      → read_int32 m.int_reg_file rs1 ≡ ok a32
      → read_int32 m.int_reg_file rs2 ≡ ok b32
      → write_int64 m.int_reg_file rd (value64 code a b) ≡ ok g
      → process_op (op OpClass.rv64i code (operand_r rd rs1 rs2 f3 f7)) pc m
        ≡ ok (tt, record m { int_reg_file = g })
  unfolding process_op process_op_class process_rv64i process_rv64i_code process_rv64i_alu
      process_rv64i_shift alu_rv64i shift_rv64i ◌>>=◌ lift read_x64 read_x32 write_x64
  run_alu m g rd rs1 rs2 a b a32 b32 f3 f7 pc _ _ _ add_code ea eb ea32 eb32 ew =
      rw (ea, eb, ea32, eb32, ew) refl
  run_alu m g rd rs1 rs2 a b a32 b32 f3 f7 pc _ _ _ sub_code ea eb ea32 eb32 ew =
      rw (ea, eb, ea32, eb32, ew) refl
  run_alu m g rd rs1 rs2 a b a32 b32 f3 f7 pc _ _ _ slt_code ea eb ea32 eb32 ew =
      rw (ea, eb, ea32, eb32, ew) refl
  run_alu m g rd rs1 rs2 a b a32 b32 f3 f7 pc _ _ _ sltu_code ea eb ea32 eb32 ew =
      rw (ea, eb, ea32, eb32, ew) refl
  run_alu m g rd rs1 rs2 a b a32 b32 f3 f7 pc _ _ _ xor_code ea eb ea32 eb32 ew =
      rw (ea, eb, ea32, eb32, ew) refl
  run_alu m g rd rs1 rs2 a b a32 b32 f3 f7 pc _ _ _ or_code ea eb ea32 eb32 ew =
      rw (ea, eb, ea32, eb32, ew) refl
  run_alu m g rd rs1 rs2 a b a32 b32 f3 f7 pc _ _ _ and_code ea eb ea32 eb32 ew =
      rw (ea, eb, ea32, eb32, ew) refl
  run_alu m g rd rs1 rs2 a b a32 b32 f3 f7 pc _ _ _ sll_code ea eb ea32 eb32 ew =
      rw (ea, ea32, eb, shift_left-run a b, ew) refl
  run_alu m g rd rs1 rs2 a b a32 b32 f3 f7 pc _ _ _ srl_code ea eb ea32 eb32 ew =
      rw (ea, ea32, eb, shift_right-run a b, ew) refl
  run_alu m g rd rs1 rs2 a b a32 b32 f3 f7 pc _ _ _ sra_code ea eb ea32 eb32 ew =
      rw (ea, ea32, eb, shift_right_signed-run a b, ew) refl

  no_pre_check :
      (code : OpCode) (f3 f7 k3 k7 rd rs1 rs2 pc insn : ℕ)
      → IsBase code k3 k7
      → (m : Machine D) → pre_check_trap (r_op code rd rs1 rs2 f3 f7) pc insn m ≡ ok (none, m)
  unfolding pre_check_trap pre_check_trap_class pre_check_trap_code
  no_pre_check _ f3 f7 _ _ rd rs1 rs2 pc insn add_code m = refl
  no_pre_check _ f3 f7 _ _ rd rs1 rs2 pc insn sub_code m = refl
  no_pre_check _ f3 f7 _ _ rd rs1 rs2 pc insn sll_code m = refl
  no_pre_check _ f3 f7 _ _ rd rs1 rs2 pc insn slt_code m = refl
  no_pre_check _ f3 f7 _ _ rd rs1 rs2 pc insn sltu_code m = refl
  no_pre_check _ f3 f7 _ _ rd rs1 rs2 pc insn xor_code m = refl
  no_pre_check _ f3 f7 _ _ rd rs1 rs2 pc insn srl_code m = refl
  no_pre_check _ f3 f7 _ _ rd rs1 rs2 pc insn sra_code m = refl
  no_pre_check _ f3 f7 _ _ rd rs1 rs2 pc insn or_code m = refl
  no_pre_check _ f3 f7 _ _ rd rs1 rs2 pc insn and_code m = refl

  no_post_check :
      (code : OpCode) (f3 f7 k3 k7 rd rs1 rs2 pc : ℕ)
      → IsBase code k3 k7
      → (m : Machine D) → post_check_trap (r_op code rd rs1 rs2 f3 f7) pc m ≡ ok (none, m)
  unfolding post_check_trap post_check_trap_code
  no_post_check _ f3 f7 _ _ rd rs1 rs2 pc add_code m = refl
  no_post_check _ f3 f7 _ _ rd rs1 rs2 pc sub_code m = refl
  no_post_check _ f3 f7 _ _ rd rs1 rs2 pc sll_code m = refl
  no_post_check _ f3 f7 _ _ rd rs1 rs2 pc slt_code m = refl
  no_post_check _ f3 f7 _ _ rd rs1 rs2 pc sltu_code m = refl
  no_post_check _ f3 f7 _ _ rd rs1 rs2 pc xor_code m = refl
  no_post_check _ f3 f7 _ _ rd rs1 rs2 pc srl_code m = refl
  no_post_check _ f3 f7 _ _ rd rs1 rs2 pc sra_code m = refl
  no_post_check _ f3 f7 _ _ rd rs1 rs2 pc or_code m = refl
  no_post_check _ f3 f7 _ _ rd rs1 rs2 pc and_code m = refl

  -- On RV64, the word of a base register-register instruction at `pc`, run from a machine whose
  -- register file has 32 entries and 0 in x0, stores in its register rd, which is not x0, what the
  -- manual computes from the registers rs1 and rs2, sets the program counter to `pc + 4`, and
  -- changes nothing else.
  pub process_insn-r_word :
      (m : Machine D) (code : OpCode) (rd rs1 rs2 f3 f7 a b pc : ℕ)
      → IsBase code f3 f7
      → rd < 32
      → rs1 < 32
      → rs2 < 32
      → rd ≢ 0
      → IsMachine m
      → get_elem? m.int_reg_file.entries rs1 ≡ some a
      → get_elem? m.int_reg_file.entries rs2 ≡ some b
      → process_insn xlen64 (r_word 0b0110011 rd f3 rs1 rs2 f7) pc m
        ≡ ok (
          tt,
          record m {
            csr = set_program_counter m.csr (u64 (pc + 4));
            int_reg_file = record { entries = set m.int_reg_file.entries rd (value64 code a b) };
          },
        )
  unfolding process_insn execute_checked execute_unless execute raise_if ◌>>=◌ ◌>>◌ lift set_pc
      set_program_counter
  process_insn-r_word m code rd rs1 rs2 f3 f7 a b pc base hd h1 h2 h0 w ea eb =
      let (h3, h7, n1) = base_bounds code f3 f7 base in
      let insn = r_word 0b0110011 rd f3 rs1 rs2 f7 in
      let n : Machine D = record m { csr = set_program_counter m.csr (u64 (pc + 4)) } in
      let g : IntRegFile = record { entries = set m.int_reg_file.entries rd (value64 code a b) } in
      let run =
        run_alu n g rd rs1 rs2 a b (a % 2 ^ 32) (b % 2 ^ 32) f3 (f7 % 32) pc code f3 f7 base
          (read_int64-entry m.int_reg_file rs1 a (omega arith) ea)
          (read_int64-entry m.int_reg_file rs2 b (omega arith) eb)
          (read_int32-entry m.int_reg_file rs1 a (omega arith) ea)
          (read_int32-entry m.int_reg_file rs2 b (omega arith) eb)
          (write_int64-run m.int_reg_file rd (value64 code a b) hd h0 w.size) in
      rw
        (
          decode32-r_word xlen64 code rd rs1 rs2 f3 f7 (λ e. cc) base hd h1 h2,
          known_code code f3 f7 base,
          no_pre_check code f3 (f7 % 32) f3 f7 rd rs1 rs2 pc insn base m,
          not_compressed rd rs1 rs2 hd h1 h2 f3 f7 h3 h7,
          run,
          no_post_check code f3 (f7 % 32) f3 f7 rd rs1 rs2 pc base (record n { int_reg_file = g }),
        )
        refl
