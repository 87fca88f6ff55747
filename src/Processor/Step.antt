-- ===== src/Processor/Step.antt =====
-- src/rafi-emu/cpu/Processor.cpp: `Fetch`, and the part of `ProcessCycle` that follows it.
use rafi_emu.Common.{
  ℕ, ◌+◌, ◌*◌, ◌%◌, ◌^◌, bit_or, Bool, true, false, ◌==◌, if◌then◌else◌, Option, none, some,
}
use rafi_emu.Common as C
use rafi_emu.Word.{u64}
use rafi_emu.RvTypes.{Xlen, instruction}
use rafi_emu.Bus.{Io}
use rafi_emu.Op.{Op, OpCode}
use rafi_emu.Trap.{Trap, make_illegal_instruction_exception}
use rafi_emu.TrapProcessor.{process_exception}
use rafi_emu.MemoryAccessUnit.{Translation, fault, address}
use rafi_emu.MemoryAccessUnit.Translate.{translate, fetch_uint}
use rafi_emu.Decoder.{is_compressed_instruction, decode32}
use rafi_emu.Executor.Machine.{E, Wide, pure, lift, ◌>>=◌, ◌>>◌, set_pc}
use rafi_emu.Executor.Checks.{post_check_trap}
use rafi_emu.Executor.PreCheckAll.{pre_check_trap}
use rafi_emu.Executor.Process.{Floating, process_op}

-- What `Fetch` returns: a trap, or the instruction in `*pOutInsn`.
pub data Fetched : Type 0 where
  fetch_trap : Trap → Fetched
  fetched : ℕ → Fetched

unfoldable pub is_unknown : OpCode → Bool
is_unknown OpCode.unknown = true
is_unknown _ = false

module _ {D : Type 0} ⦃io : Io D⦄ where
  -- `Translate(&paddr, MemoryAccessType::Instruction, vaddr, pc)`.
  unfoldable pub translate_instruction : ℕ → ℕ → E D Translation
  translate_instruction vaddr pc m =
      C.◌>>=◌ (translate m.mem_access_unit m.csr instruction vaddr pc m.bus)
        (λ r. C.ok (r.0, record m { bus = r.1 }))

  -- `FetchUInt16` and `FetchUInt32`, by the number of bytes.
  unfoldable pub fetch_bytes : ℕ → ℕ → ℕ → E D ℕ
  fetch_bytes size vaddr paddr m =
      C.◌>>=◌ (fetch_uint size m.mem_access_unit vaddr paddr m.bus)
        (λ r. C.ok (r.0.0, record m { mem_access_unit = r.0.1; bus = r.1 }))

  -- `RAFI_RETURN_IF_TRAP`, and then the bytes at the address.
  unfoldable pub fetch_translated : ℕ → ℕ → Translation → E D Fetched
  fetch_translated size vaddr (fault t) = pure (fetch_trap t)
  fetch_translated size vaddr (address paddr) = do
    insn ← fetch_bytes size vaddr paddr
    pure (fetched insn)

  -- The upper half of an instruction whose lower half is the last one of a page.
  unfoldable pub fetch_high : ℕ → ℕ → Fetched → E D Fetched
  fetch_high pc low (fetch_trap t) = pure (fetch_trap t)
  fetch_high pc low (fetched high) = pure (fetched (bit_or (high * 2 ^ 16) low))

  unfoldable pub fetch_rest : ℕ → Fetched → E D Fetched
  fetch_rest pc (fetch_trap t) = pure (fetch_trap t)
  fetch_rest pc (fetched low) = if is_compressed_instruction low then pure (fetched low) else (do
    translation ← translate_instruction (u64 (pc + 2)) pc
    high ← fetch_translated 2 (u64 (pc + 2)) translation
    fetch_high pc low high)

  -- `Fetch(pOutInsn, pc)`
  unfoldable pub fetch : ℕ → E D Fetched
  fetch pc =
      if pc % 0x1000 == 0xffe
      then (do
        translation ← translate_instruction pc pc
        low ← fetch_translated 2 pc translation
        fetch_rest pc low)
      else (do translation ← translate_instruction pc pc; fetch_translated 4 pc translation)

module _ {D : Type 0} where
  -- `m_TrapProcessor.ProcessException(trap)`
  unfoldable pub raise : Trap → E D (Unit {0})
  raise t m =
      C.◌>>=◌ (process_exception m.trap_processor m.csr t)
        (λ d. C.ok (tt, record m { trap_processor = d.processor; csr = d.csr }))

  unfoldable pub raise_if : Option Trap → E D (Unit {0})
  raise_if none = pure tt
  raise_if (some t) = raise t

module _ {D : Type 0} ⦃io : Io D⦄ ⦃wide : Wide⦄ ⦃floating : Floating D⦄ where
  -- The end of `ProcessCycle`, after an op without a trap.
  unfoldable pub execute : Op → ℕ → ℕ → E D (Unit {0})
  execute o insn pc = do
    set_pc (u64 (pc + (if is_compressed_instruction insn then 2 else 4)))
    process_op o pc
    trap ← post_check_trap o pc
    raise_if trap

  unfoldable pub execute_unless : Op → ℕ → ℕ → Option Trap → E D (Unit {0})
  execute_unless o insn pc (some t) = raise t
  execute_unless o insn pc none = execute o insn pc

  -- An op whose code is not `unknown`.
  unfoldable pub execute_checked : Op → ℕ → ℕ → E D (Unit {0})
  execute_checked o insn pc = do trap ← pre_check_trap o pc insn; execute_unless o insn pc trap

  -- `ProcessCycle` from the decoder on.
  unfoldable pub process_insn : Xlen → ℕ → ℕ → E D (Unit {0})
  process_insn xlen insn pc = do
    o ← lift (decode32 xlen insn)
    if is_unknown o.op_code
        then raise (make_illegal_instruction_exception pc insn)
        else execute_checked o insn pc
