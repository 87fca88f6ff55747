-- ===== src/Executor/KeepsOp.antt =====
-- src/rafi-emu/cpu/Executor.cpp: the register file over `ProcessOp`.
use rafi_emu.Common.{ℕ, Bool, true, false, ◌≡◌}
use rafi_emu.Bus.{Io}
use rafi_emu.Op.{Op, OpClass}
use rafi_emu.Executor.Machine.{Wide}
use rafi_emu.Executor.Keeps.{Keeps}
use rafi_emu.Executor.Process.{Floating, process_op_class, process_op}
use rafi_emu.Executor.KeepsInteger.{process_rv32i-Keeps, process_rv64i-Keeps}
use rafi_emu.Executor.KeepsMulAtomic.{
  process_rv32m-Keeps, process_rv64m-Keeps, process_rv32a-Keeps, process_rv64a-Keeps,
}
use rafi_emu.Executor.KeepsCompressed.{process_rv32c-Keeps, process_rv64c-Keeps}

-- The classes of ops that `ProcessRVF` and `ProcessRVD` execute.
abbrev pub is_floating : OpClass → Bool
is_floating OpClass.rv32f = true
is_floating OpClass.rv32d = true
is_floating OpClass.rv64f = true
is_floating OpClass.rv64d = true
is_floating _ = false

module _ {D : Type 0} ⦃io : Io D⦄ ⦃wide : Wide⦄ ⦃floating : Floating D⦄ where
  process_op_class-Keeps :
      (c : OpClass) (o : Op) (pc : ℕ)
      → is_floating c ≡ false
      → Keeps {D = D} (process_op_class c o pc)
  unfolding process_op_class
  process_op_class-Keeps OpClass.rv32i o pc h = process_rv32i-Keeps o pc
  process_op_class-Keeps OpClass.rv32m o pc h = process_rv32m-Keeps o
  process_op_class-Keeps OpClass.rv32a o pc h = process_rv32a-Keeps o
  process_op_class-Keeps OpClass.rv32f o pc h = cc
  process_op_class-Keeps OpClass.rv32d o pc h = cc
  process_op_class-Keeps OpClass.rv32c o pc h = process_rv32c-Keeps o pc
  process_op_class-Keeps OpClass.rv64i o pc h = process_rv64i-Keeps o pc
  process_op_class-Keeps OpClass.rv64m o pc h = process_rv64m-Keeps o
  process_op_class-Keeps OpClass.rv64a o pc h = process_rv64a-Keeps o
  process_op_class-Keeps OpClass.rv64f o pc h = cc
  process_op_class-Keeps OpClass.rv64d o pc h = cc
  process_op_class-Keeps OpClass.rv64c o pc h = process_rv64c-Keeps o pc

  -- `ProcessOp` on any op but the floating-point ones of the F and D classes, from a machine whose
  -- register file has 32 entries and 0 in x0, leaves such a machine if it returns.
  pub process_op-Keeps :
      (o : Op) (pc : ℕ) → is_floating o.op_class ≡ false → Keeps {D = D} (process_op o pc)
  unfolding process_op
  process_op-Keeps o pc h = process_op_class-Keeps o.op_class o pc h
