-- ===== src/Executor/Atomics.antt =====
-- src/rafi-emu/cpu/Executor.cpp: load-reserved, store-conditional and the atomic memory operations.
use Prim.Native.Nat.{bit_xor}
use rafi_emu.Common.{ℕ, bit_and, bit_or, Bool, ltb, if◌then◌else◌, Outcome, ok}
use rafi_emu.Word.{sign_extend}
use rafi_emu.Op.{Op, OpCode}
use rafi_emu.Bus.{Io}
use rafi_emu.Executor.Arith.{add, less}
use rafi_emu.Executor.Machine.{
  E, ◌>>=◌, ◌>>◌, lift, error, read_x32, read_x64, write_x32, write_x64, cancel_reservation,
  reserve_address, holds_reservation, load, store,
}
use rafi_emu.Executor.Operands.{get_r}

unfoldable pub amo_word : OpCode → ℕ → ℕ → Outcome ℕ
amo_word OpCode.amoswap_w v s = ok s
amo_word OpCode.amoadd_w v s = ok (add 32 v s)
amo_word OpCode.amoxor_w v s = ok (bit_xor v s)
amo_word OpCode.amoand_w v s = ok (bit_and v s)
amo_word OpCode.amoor_w v s = ok (bit_or v s)
amo_word OpCode.amomax_w v s = ok (if less 32 v s then s else v)
amo_word OpCode.amomin_w v s = ok (if less 32 s v then s else v)
amo_word OpCode.amomaxu_w v s = ok (if ltb v s then s else v)
amo_word OpCode.amominu_w v s = ok (if ltb s v then s else v)
amo_word _ _ _ = error

unfoldable pub amo_double : OpCode → ℕ → ℕ → Outcome ℕ
amo_double OpCode.amoswap_d v s = ok s
amo_double OpCode.amoadd_d v s = ok (add 64 v s)
amo_double OpCode.amoxor_d v s = ok (bit_xor v s)
amo_double OpCode.amoand_d v s = ok (bit_and v s)
amo_double OpCode.amoor_d v s = ok (bit_or v s)
amo_double OpCode.amomax_d v s = ok (if less 64 v s then s else v)
amo_double OpCode.amomin_d v s = ok (if less 64 s v then s else v)
amo_double OpCode.amomaxu_d v s = ok (if ltb v s then s else v)
amo_double OpCode.amominu_d v s = ok (if ltb s v then s else v)
amo_double _ _ _ = error

module _ {D : Type 0} ⦃io : Io D⦄ where
  unfoldable pub process_rv32a_atomic : Op → E D (Unit {0})
  process_rv32a_atomic o = do
    cancel_reservation
    (rd, rs1, rs2) ← lift (get_r o.operand)
    address ← read_x32 rs1
    src2 ← read_x32 rs2
    value ← load 4 address
    result ← lift (amo_word o.op_code value src2)
    store 4 address result
    write_x32 rd value

  unfoldable pub process_rv64a_atomic32 : Op → E D (Unit {0})
  process_rv64a_atomic32 o = do
    cancel_reservation
    (rd, rs1, rs2) ← lift (get_r o.operand)
    address ← read_x64 rs1
    src2 ← read_x32 rs2
    value ← load 4 address
    result ← lift (amo_word o.op_code value src2)
    store 4 address result
    write_x64 rd (sign_extend 64 32 value)

  unfoldable pub process_rv64a_atomic64 : Op → E D (Unit {0})
  process_rv64a_atomic64 o = do
    cancel_reservation
    (rd, rs1, rs2) ← lift (get_r o.operand)
    address ← read_x64 rs1
    src2 ← read_x64 rs2
    value ← load 8 address
    result ← lift (amo_double o.op_code value src2)
    store 8 address result
    write_x64 rd value

  unfoldable pub process_rv32a_load : Op → E D (Unit {0})
  process_rv32a_load o = do
    (rd, rs1, _) ← lift (get_r o.operand)
    address ← read_x32 rs1
    reserve_address address
    value ← load 4 address
    write_x32 rd value

  unfoldable pub process_rv64a_load32 : Op → E D (Unit {0})
  process_rv64a_load32 o = do
    (rd, rs1, _) ← lift (get_r o.operand)
    address ← read_x64 rs1
    reserve_address address
    value ← load 4 address
    write_x64 rd (sign_extend 64 32 value)

  unfoldable pub process_rv64a_load64 : Op → E D (Unit {0})
  process_rv64a_load64 o = do
    cancel_reservation
    (rd, rs1, _) ← lift (get_r o.operand)
    address ← read_x64 rs1
    reserve_address address
    value ← load 8 address
    write_x64 rd value

  -- The store of an SC, if its address is reserved, and what it leaves in `rd`.
  unfoldable pub store_conditional32 : ℕ → ℕ → ℕ → ℕ → Bool → E D (Unit {0})
  store_conditional32 size rd address value reserved =
      if reserved then (do store size address value; write_x32 rd 0) else write_x32 rd 1

  unfoldable pub store_conditional64 : ℕ → ℕ → ℕ → ℕ → Bool → E D (Unit {0})
  store_conditional64 size rd address value reserved =
      if reserved then (do store size address value; write_x64 rd 0) else write_x64 rd 1

  unfoldable pub process_rv32a_store : Op → E D (Unit {0})
  process_rv32a_store o = do
    (rd, rs1, rs2) ← lift (get_r o.operand)
    address ← read_x32 rs1
    value ← read_x32 rs2
    reserved ← holds_reservation address
    store_conditional32 4 rd address value reserved
    cancel_reservation

  unfoldable pub process_rv64a_store32 : Op → E D (Unit {0})
  process_rv64a_store32 o = do
    (rd, rs1, rs2) ← lift (get_r o.operand)
    address ← read_x64 rs1
    value ← read_x32 rs2
    reserved ← holds_reservation address
    store_conditional64 4 rd address value reserved
    cancel_reservation

  unfoldable pub process_rv64a_store64 : Op → E D (Unit {0})
  process_rv64a_store64 o = do
    (rd, rs1, rs2) ← lift (get_r o.operand)
    address ← read_x64 rs1
    value ← read_x64 rs2
    reserved ← holds_reservation address
    store_conditional64 8 rd address value reserved
    cancel_reservation
