-- ===== src/Decoder/Results.antt =====
-- src/librafi_common/DecoderImpl.cpp: how the decoding functions end. `RAFI_NOT_IMPLEMENTED` throws.
use rafi_emu.Common.{Outcome, ok, throws, ◌>>=◌}
use rafi_emu.RvTypes.{Xlen, xlen32, xlen64, xlen128}
use rafi_emu.Op.{OpClass, OpCode, Op, op, Operand, operand_none}

-- `RAFI_RETURN_UNKNOWN_OP(_opClass)`
abbrev pub unknown_op : OpClass → Outcome Op
unknown_op op_class = ok (op op_class OpCode.unknown operand_none)

abbrev pub with_operand : OpClass → OpCode → Outcome Operand → Outcome Op
with_operand op_class op_code operand = operand >>= λ o. ok (op op_class op_code o)

-- The switch on `m_XLEN` that the decoding functions begin with.
abbrev pub class_of : Xlen → OpClass → OpClass → Outcome OpClass
class_of xlen32 class32 class64 = ok class32
class_of xlen64 class32 class64 = ok class64
class_of xlen128 class32 class64 = throws
