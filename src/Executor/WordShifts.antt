-- ===== src/Executor/WordShifts.antt =====
-- src/rafi-emu/cpu/Executor.cpp: SLLW, SRLW and SRAW, whose shift amounts have six bits where the words have 32.
use rafi_emu.Common.{
  ℕ, ◌%◌, ◌^◌, ◌<◌, ◌≤◌, ◌≡◌, ◌≢◌, refl, ◌∙◌, arith, bit_and, ltb, false, lt→ltb, Outcome, ok,
  undefined, get_elem?, set, some,
}
use rafi_emu.Bits.Fields.{bit_and_mask}
use rafi_emu.Bus.{Io}
use rafi_emu.RegFile.Laws.{read_int64-entry, read_int32-entry, write_int64-run}
use rafi_emu.Op.{OpClass, OpCode, op, operand_r}
use rafi_emu.Executor.Arith.{shift_left, shift_right, shift_right_signed}
use rafi_emu.Executor.Machine.{Machine, Wide, ◌>>=◌, lift, read_x64, read_x32, write_x64}
use rafi_emu.Executor.Keeps.{IsMachine}
use rafi_emu.Executor.Values64.{shift_rv64i}
use rafi_emu.Executor.Rv64I.{process_rv64i_shift}
use rafi_emu.Executor.Integer64.{process_rv64i_code, process_rv64i}
use rafi_emu.Executor.Process.{Floating, process_op_class, process_op}

pub data IsWordShift : OpCode → Type 0 where
  sllw_code : IsWordShift OpCode.sllw
  srlw_code : IsWordShift OpCode.srlw
  sraw_code : IsWordShift OpCode.sraw

masked : (b : ℕ) → bit_and b 0x3f ≡ b % 64
masked b = bit_and_mask 6 b

not_below : (n : ℕ) → 32 ≤ n → ltb n 32 ≡ false
not_below n h = ground arith

shift-returns :
    (code : OpCode) (a a32 n : ℕ)
    → IsWordShift code
    → n < 32
    → (v : ℕ) × (shift_rv64i code a a32 n ≡ ok v)
unfolding shift_rv64i shift_left shift_right shift_right_signed
shift-returns _ a a32 n sllw_code h = rw (lt→ltb n 32 h) (_, refl)
shift-returns _ a a32 n srlw_code h = rw (lt→ltb n 32 h) (_, refl)
shift-returns _ a a32 n sraw_code h = rw (lt→ltb n 32 h) (_, refl)

shift-undefined :
    (code : OpCode) (a a32 n : ℕ) → IsWordShift code → 32 ≤ n → shift_rv64i code a a32 n ≡ undefined
unfolding shift_rv64i shift_left shift_right shift_right_signed
shift-undefined _ a a32 n sllw_code h = rw (not_below n h) refl
shift-undefined _ a a32 n srlw_code h = rw (not_below n h) refl
shift-undefined _ a a32 n sraw_code h = rw (not_below n h) refl

module _ {D : Type 0} ⦃io : Io D⦄ ⦃wide : Wide⦄ ⦃floating : Floating D⦄ where
  -- What `ProcessOp` does, once the value is known.
  run_shift :
      (code : OpCode)
      → IsWordShift code
      → (m : Machine D) (rd rs1 rs2 f3 f7 a b pc : ℕ) (o : Outcome ℕ) → rs1 < 32
      → rs2 < 32
      → get_elem? m.int_reg_file.entries rs1 ≡ some a
      → get_elem? m.int_reg_file.entries rs2 ≡ some b
      → shift_rv64i code a (a % 2 ^ 32) (b % 64) ≡ o
      → process_op (op OpClass.rv64i code (operand_r rd rs1 rs2 f3 f7)) pc m
        ≡ (lift o >>= write_x64 rd) m
  unfolding process_op process_op_class process_rv64i process_rv64i_code process_rv64i_shift ◌>>=◌
      lift read_x64 read_x32
  run_shift _ sllw_code m rd rs1 rs2 f3 f7 a b pc o h1 h2 ea eb e =
      rw
        (
          read_int64-entry m.int_reg_file rs1 a (omega arith) ea,
          read_int32-entry m.int_reg_file rs1 a (omega arith) ea,
          read_int64-entry m.int_reg_file rs2 b (omega arith) eb,
          masked b,
          e,
        )
        refl
  run_shift _ srlw_code m rd rs1 rs2 f3 f7 a b pc o h1 h2 ea eb e =
      rw
        (
          read_int64-entry m.int_reg_file rs1 a (omega arith) ea,
          read_int32-entry m.int_reg_file rs1 a (omega arith) ea,
          read_int64-entry m.int_reg_file rs2 b (omega arith) eb,
          masked b,
          e,
        )
        refl
  run_shift _ sraw_code m rd rs1 rs2 f3 f7 a b pc o h1 h2 ea eb e =
      rw
        (
          read_int64-entry m.int_reg_file rs1 a (omega arith) ea,
          read_int32-entry m.int_reg_file rs1 a (omega arith) ea,
          read_int64-entry m.int_reg_file rs2 b (omega arith) eb,
          masked b,
          e,
        )
        refl

  -- SLLW, SRLW and SRAW to a register rd other than x0, from a machine whose register file has 32
  -- entries and 0 in x0: where the low six bits of rs2 are below 32, `ProcessOp` returns and changes
  -- rd alone; where they are 32 or more, it has no meaning, since it shifts a word by its width or
  -- more.
  pub process_op-word_shift :
      (code : OpCode) (m : Machine D) (rd rs1 rs2 f3 f7 a b pc : ℕ)
      → IsWordShift code
      → rd < 32
      → rs1 < 32
      → rs2 < 32
      → rd ≢ 0
      → IsMachine m
      → get_elem? m.int_reg_file.entries rs1 ≡ some a
      → get_elem? m.int_reg_file.entries rs2 ≡ some b
      → (b % 64 < 32
          → (v : ℕ) × (process_op (op OpClass.rv64i code (operand_r rd rs1 rs2 f3 f7)) pc m
              ≡ ok (
                tt,
                record m { int_reg_file = record { entries = set m.int_reg_file.entries rd v } },
              )))
        × (32 ≤ b % 64
            → process_op (op OpClass.rv64i code (operand_r rd rs1 rs2 f3 f7)) pc m ≡ undefined)
  unfolding ◌>>=◌ lift write_x64
  process_op-word_shift code m rd rs1 rs2 f3 f7 a b pc shift hd h1 h2 h0 w ea eb = (
    λ low.
        let (v, e) = shift-returns code a (a % 2 ^ 32) (b % 64) shift low in
        (
          v,
          run_shift code shift m rd rs1 rs2 f3 f7 a b pc (ok v) h1 h2 ea eb e
              ∙ rw (write_int64-run m.int_reg_file rd v hd h0 w.size) refl,
        ),
    λ high.
        run_shift code shift m rd rs1 rs2 f3 f7 a b pc undefined h1 h2 ea eb
          (shift-undefined code a (a % 2 ^ 32) (b % 64) shift high),
  )
