-- ===== src/Executor/Atomic.antt =====
-- src/rafi-emu/cpu/Executor.cpp: `ProcessRV32A` and `ProcessRV64A`.
use rafi_emu.Op.{Op, OpCode}
use rafi_emu.Bus.{Io}
use rafi_emu.Executor.Machine.{E, lift, error}
use rafi_emu.Executor.Atomics.{
  process_rv32a_atomic, process_rv32a_load, process_rv32a_store, process_rv64a_atomic32,
  process_rv64a_atomic64, process_rv64a_load32, process_rv64a_load64, process_rv64a_store32,
  process_rv64a_store64,
}

module _ {D : Type 0} ⦃io : Io D⦄ where
  unfoldable pub process_rv32a_code : OpCode → Op → E D (Unit {0})
  process_rv32a_code OpCode.lr_w o = process_rv32a_load o
  process_rv32a_code OpCode.sc_w o = process_rv32a_store o
  process_rv32a_code OpCode.amoswap_w o = process_rv32a_atomic o
  process_rv32a_code OpCode.amoadd_w o = process_rv32a_atomic o
  process_rv32a_code OpCode.amoxor_w o = process_rv32a_atomic o
  process_rv32a_code OpCode.amoand_w o = process_rv32a_atomic o
  process_rv32a_code OpCode.amoor_w o = process_rv32a_atomic o
  process_rv32a_code OpCode.amomax_w o = process_rv32a_atomic o
  process_rv32a_code OpCode.amomin_w o = process_rv32a_atomic o
  process_rv32a_code OpCode.amomaxu_w o = process_rv32a_atomic o
  process_rv32a_code OpCode.amominu_w o = process_rv32a_atomic o
  process_rv32a_code _ o = lift error

  unfoldable pub process_rv32a : Op → E D (Unit {0})
  process_rv32a o = process_rv32a_code o.op_code o

  unfoldable pub process_rv64a_code : OpCode → Op → E D (Unit {0})
  process_rv64a_code OpCode.lr_w o = process_rv64a_load32 o
  process_rv64a_code OpCode.lr_d o = process_rv64a_load64 o
  process_rv64a_code OpCode.sc_w o = process_rv64a_store32 o
  process_rv64a_code OpCode.sc_d o = process_rv64a_store64 o
  process_rv64a_code OpCode.amoswap_w o = process_rv64a_atomic32 o
  process_rv64a_code OpCode.amoadd_w o = process_rv64a_atomic32 o
  process_rv64a_code OpCode.amoxor_w o = process_rv64a_atomic32 o
  process_rv64a_code OpCode.amoand_w o = process_rv64a_atomic32 o
  process_rv64a_code OpCode.amoor_w o = process_rv64a_atomic32 o
  process_rv64a_code OpCode.amomax_w o = process_rv64a_atomic32 o
  process_rv64a_code OpCode.amomin_w o = process_rv64a_atomic32 o
  process_rv64a_code OpCode.amomaxu_w o = process_rv64a_atomic32 o
  process_rv64a_code OpCode.amominu_w o = process_rv64a_atomic32 o
  process_rv64a_code OpCode.amoswap_d o = process_rv64a_atomic64 o
  process_rv64a_code OpCode.amoadd_d o = process_rv64a_atomic64 o
  process_rv64a_code OpCode.amoxor_d o = process_rv64a_atomic64 o
  process_rv64a_code OpCode.amoand_d o = process_rv64a_atomic64 o
  process_rv64a_code OpCode.amoor_d o = process_rv64a_atomic64 o
  process_rv64a_code OpCode.amomax_d o = process_rv64a_atomic64 o
  process_rv64a_code OpCode.amomin_d o = process_rv64a_atomic64 o
  process_rv64a_code OpCode.amomaxu_d o = process_rv64a_atomic64 o
  process_rv64a_code OpCode.amominu_d o = process_rv64a_atomic64 o
  process_rv64a_code _ o = lift error

  unfoldable pub process_rv64a : Op → E D (Unit {0})
  process_rv64a o = process_rv64a_code o.op_code o
