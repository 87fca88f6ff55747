-- ===== src/Executor/Process.antt =====
-- src/rafi-emu/cpu/Executor.cpp: `ProcessOp`.
use rafi_emu.Common.{ℕ}
use rafi_emu.Op.{Op, OpClass}
use rafi_emu.Bus.{Io}
use rafi_emu.Executor.Machine.{E, Wide}
use rafi_emu.Executor.Integer32.{process_rv32i}
use rafi_emu.Executor.Integer64.{process_rv64i}
use rafi_emu.Executor.MulDiv32.{process_rv32m}
use rafi_emu.Executor.MulDiv64.{process_rv64m}
use rafi_emu.Executor.Atomic.{process_rv32a, process_rv64a}
use rafi_emu.Executor.Compressed32.{process_rv32c}
use rafi_emu.Executor.Compressed64.{process_rv64c}

-- `ProcessRVF` and `ProcessRVD`, which compute with librafi_fp and SoftFloat.
pub record Floating (D : Type 0) : Type 0 where
  pub process_rvf : Op → E D (Unit {0})
  pub process_rvd : Op → E D (Unit {0})

module _ {D : Type 0} ⦃io : Io D⦄ ⦃wide : Wide⦄ ⦃floating : Floating D⦄ where
  unfoldable pub process_op_class : OpClass → Op → ℕ → E D (Unit {0})
  process_op_class OpClass.rv32i o pc = process_rv32i o pc
  process_op_class OpClass.rv32m o pc = process_rv32m o
  process_op_class OpClass.rv32c o pc = process_rv32c o pc
  process_op_class OpClass.rv64i o pc = process_rv64i o pc
  process_op_class OpClass.rv64m o pc = process_rv64m o
  process_op_class OpClass.rv64c o pc = process_rv64c o pc
  process_op_class OpClass.rv32a o pc = process_rv32a o
  process_op_class OpClass.rv64a o pc = process_rv64a o
  process_op_class OpClass.rv32f o pc = floating.process_rvf o
  process_op_class OpClass.rv64f o pc = floating.process_rvf o
  process_op_class OpClass.rv32d o pc = floating.process_rvd o
  process_op_class OpClass.rv64d o pc = floating.process_rvd o

  unfoldable pub process_op : Op → ℕ → E D (Unit {0})
  process_op o pc = process_op_class o.op_class o pc
