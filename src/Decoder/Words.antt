-- ===== src/Decoder/Words.antt =====
-- What `Decode` of librafi_common/DecoderImpl.cpp returns for any instruction word.
use rafi_emu.Common.{
  ℕ, ◌≡◌, ◌≢◌, refl, arith, Bool, true, false, Bool-cases, if◌then◌else◌, Outcome, Returns, returns,
  Returns-if, ◌⊎◌, inl, inr, ◌||◌, ◌%◌, ◌^◌,
}
use rafi_emu.RvTypes.{Xlen, xlen32, xlen64, xlen128}
use rafi_emu.Op.{OpClass, Op, is_class}
use rafi_emu.Executor.PreCheckAll.{is_rv32, is_rv64}
use rafi_emu.Decoder.Operand.{pick}
use rafi_emu.Decoder.{is_compressed_instruction, is_m, is_a, is_f, is_d, decode32}
use rafi_emu.Decoder.Integer.{decode_i}
use rafi_emu.Decoder.MulDiv.{decode_m}
use rafi_emu.Decoder.Atomic.{decode_a}
use rafi_emu.Decoder.Single.{decode_f}
use rafi_emu.Decoder.Double.{decode_d}
use rafi_emu.Decoder.Compressed.{decode_c}
use rafi_emu.Decoder.Registers.{RegistersFit}
use rafi_emu.Decoder.Total.{
  IsOpOf, decode_i_op-IsOpOf, decode_m_op-IsOpOf, decode_a_op-IsOpOf, decode_f_op-IsOpOf,
  decode_d_op-IsOpOf, decode_c_op-IsOpOf,
}

-- The widths that the emulator offers.
abbrev pub IsSupported : Xlen → Type 0
IsSupported x = x ≢ xlen128

abbrev pub of_width : Xlen → OpClass → Bool
of_width xlen32 c = is_rv32 c
of_width xlen64 c = is_rv64 c
of_width xlen128 c = false

unfoldable pub is_rvc : OpClass → Bool
is_rvc c = is_class c OpClass.rv32c || is_class c OpClass.rv64c

-- Of the width `x`, compressed if `compressed` says so, with register numbers in range.
pub record IsDecoded (x : Xlen) (compressed : Bool) (o : Op) : Type 0 where
  pub width : of_width x o.op_class ≡ true
  pub length : is_rvc o.op_class ≡ compressed
  pub registers : RegistersFit o.operand

IsOpOf-IsDecoded :
    (x : Xlen) (b : Bool) {c : OpClass} {o : Outcome Op}
    → of_width x c ≡ true
    → is_rvc c ≡ b
    → Returns (IsOpOf c) o
    → Returns (IsDecoded x b) o
IsOpOf-IsDecoded x b w r (returns h) =
    returns
      (record { width = cc (w, h.of_class); length = cc (r, h.of_class); registers = h.registers })

decode_c-IsDecoded :
    (x : Xlen) (insn : ℕ) → IsSupported x → Returns (IsDecoded x true) (decode_c x insn)
unfolding decode_c is_rvc is_rv32 is_rv64
decode_c-IsDecoded xlen32 insn h = IsOpOf-IsDecoded _ _ refl refl (decode_c_op-IsOpOf _ insn)
decode_c-IsDecoded xlen64 insn h = IsOpOf-IsDecoded _ _ refl refl (decode_c_op-IsOpOf _ insn)
decode_c-IsDecoded xlen128 insn h = absurd (h refl)

decode_i-IsDecoded :
    (x : Xlen) (insn : ℕ) → IsSupported x → Returns (IsDecoded x false) (decode_i x insn)
unfolding decode_i is_rvc is_rv32 is_rv64
decode_i-IsDecoded xlen32 insn h = IsOpOf-IsDecoded _ _ refl refl (decode_i_op-IsOpOf _ insn)
decode_i-IsDecoded xlen64 insn h = IsOpOf-IsDecoded _ _ refl refl (decode_i_op-IsOpOf _ insn)
decode_i-IsDecoded xlen128 insn h = absurd (h refl)

decode_a-IsDecoded :
    (x : Xlen) (insn : ℕ) → IsSupported x → Returns (IsDecoded x false) (decode_a x insn)
unfolding decode_a is_rvc is_rv32 is_rv64
decode_a-IsDecoded xlen32 insn h = IsOpOf-IsDecoded _ _ refl refl (decode_a_op-IsOpOf _ insn)
decode_a-IsDecoded xlen64 insn h = IsOpOf-IsDecoded _ _ refl refl (decode_a_op-IsOpOf _ insn)
decode_a-IsDecoded xlen128 insn h = absurd (h refl)

decode_f-IsDecoded :
    (x : Xlen) (insn : ℕ) → IsSupported x → Returns (IsDecoded x false) (decode_f x insn)
unfolding decode_f is_rvc is_rv32 is_rv64
decode_f-IsDecoded xlen32 insn h = IsOpOf-IsDecoded _ _ refl refl (decode_f_op-IsOpOf _ insn)
decode_f-IsDecoded xlen64 insn h = IsOpOf-IsDecoded _ _ refl refl (decode_f_op-IsOpOf _ insn)
decode_f-IsDecoded xlen128 insn h = absurd (h refl)

decode_d-IsDecoded :
    (x : Xlen) (insn : ℕ) → IsSupported x → Returns (IsDecoded x false) (decode_d x insn)
unfolding decode_d is_rvc is_rv32 is_rv64
decode_d-IsDecoded xlen32 insn h = IsOpOf-IsDecoded _ _ refl refl (decode_d_op-IsOpOf _ insn)
decode_d-IsDecoded xlen64 insn h = IsOpOf-IsDecoded _ _ refl refl (decode_d_op-IsOpOf _ insn)
decode_d-IsDecoded xlen128 insn h = absurd (h refl)

-- The two opcodes that `Decode` sends to `DecodeM`, which refuses any other.
m_opcodes :
    (insn : ℕ) → is_m insn ≡ true → (pick insn 0 7 ≡ 0b0110011) ⊎ (pick insn 0 7 ≡ 0b0111011)
m_opcodes insn h = ground arith

decode_m-IsDecoded :
    (x : Xlen) (insn : ℕ)
    → IsSupported x
    → is_m insn ≡ true
    → Returns (IsDecoded x false) (decode_m x insn)
unfolding decode_m is_rvc is_rv32 is_rv64
decode_m-IsDecoded xlen32 insn h e =
    IsOpOf-IsDecoded _ _ refl refl (decode_m_op-IsOpOf _ insn (m_opcodes insn e))
decode_m-IsDecoded xlen64 insn h e =
    IsOpOf-IsDecoded _ _ refl refl (decode_m_op-IsOpOf _ insn (m_opcodes insn e))
decode_m-IsDecoded xlen128 insn h e = absurd (h refl)

-- The words that are neither compressed nor sent to `DecodeM`.
others-IsDecoded :
    (x : Xlen) (insn : ℕ)
    → IsSupported x
    → Returns (IsDecoded x false) (
        if is_a insn
        then decode_a x insn
        else if is_f insn
        then decode_f x insn
        else if is_d insn
        then decode_d x insn
        else decode_i x insn)
others-IsDecoded x insn h =
    search
      (Returns-if, decode_a-IsDecoded, decode_f-IsDecoded, decode_d-IsDecoded, decode_i-IsDecoded)

-- Every word decodes on RV32 and on RV64, to an op of that width whose register numbers are in
-- range; the op is a compressed one exactly when the two low bits of the word say so.
pub decode32-IsDecoded :
    (x : Xlen) (insn : ℕ)
    → IsSupported x
    → Returns (IsDecoded x (is_compressed_instruction insn)) (decode32 x insn)
unfolding decode32
decode32-IsDecoded x insn h = elim (Bool-cases (is_compressed_instruction insn)) [
  | inl c ↦ rw c (decode_c-IsDecoded x (insn % 2 ^ 16) h)
  | inr c ↦ elim (Bool-cases (is_m insn)) [
    | inl m ↦ rw (c, m) (decode_m-IsDecoded x insn h m)
    | inr m ↦ rw (c, m) (others-IsDecoded x insn h)
  ]
]
