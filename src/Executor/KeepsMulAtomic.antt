-- ===== src/Executor/KeepsMulAtomic.antt =====
-- src/rafi-emu/cpu/Executor.cpp: the register file over multiplication, division and the atomic
-- instructions.
use rafi_emu.Common.{ℕ, Bool}
use rafi_emu.Bus.{Io}
use rafi_emu.Op.{Op, OpCode}
use rafi_emu.Executor.Machine.{Wide}
use rafi_emu.Executor.Keeps.{Keeps, step, step_io}
use rafi_emu.Executor.MulDiv32.{process_rv32m}
use rafi_emu.Executor.MulDiv64.{process_rv64m}
use rafi_emu.Executor.Atomics.{
  process_rv32a_atomic, process_rv64a_atomic32, process_rv64a_atomic64, process_rv32a_load,
  process_rv64a_load32, process_rv64a_load64, store_conditional32, store_conditional64,
  process_rv32a_store, process_rv64a_store32, process_rv64a_store64,
}
use rafi_emu.Executor.Atomic.{process_rv32a_code, process_rv32a, process_rv64a_code, process_rv64a}

module _ {D : Type 0} where
  pub process_rv32m-Keeps : (o : Op) → Keeps {D = D} (process_rv32m o)
  unfolding process_rv32m
  process_rv32m-Keeps o = search (step) depth 30 fits 3000

module _ {D : Type 0} ⦃wide : Wide⦄ where
  pub process_rv64m-Keeps : (o : Op) → Keeps {D = D} (process_rv64m o)
  unfolding process_rv64m
  process_rv64m-Keeps o = search (step) depth 30 fits 3000

module _ {D : Type 0} ⦃io : Io D⦄ where
  pub process_rv32a_atomic-Keeps : (o : Op) → Keeps {D = D} (process_rv32a_atomic o)
  unfolding process_rv32a_atomic
  process_rv32a_atomic-Keeps o = search (step_io) depth 30 fits 3000

  pub process_rv64a_atomic32-Keeps : (o : Op) → Keeps {D = D} (process_rv64a_atomic32 o)
  unfolding process_rv64a_atomic32
  process_rv64a_atomic32-Keeps o = search (step_io) depth 30 fits 3000

  pub process_rv64a_atomic64-Keeps : (o : Op) → Keeps {D = D} (process_rv64a_atomic64 o)
  unfolding process_rv64a_atomic64
  process_rv64a_atomic64-Keeps o = search (step_io) depth 30 fits 3000

  pub process_rv32a_load-Keeps : (o : Op) → Keeps {D = D} (process_rv32a_load o)
  unfolding process_rv32a_load
  process_rv32a_load-Keeps o = search (step_io) depth 30 fits 3000

  pub process_rv64a_load32-Keeps : (o : Op) → Keeps {D = D} (process_rv64a_load32 o)
  unfolding process_rv64a_load32
  process_rv64a_load32-Keeps o = search (step_io) depth 30 fits 3000

  pub process_rv64a_load64-Keeps : (o : Op) → Keeps {D = D} (process_rv64a_load64 o)
  unfolding process_rv64a_load64
  process_rv64a_load64-Keeps o = search (step_io) depth 30 fits 3000

  pub store_conditional32-Keeps :
      (v0 : ℕ) (v1 : ℕ) (v2 : ℕ) (v3 : ℕ) (b4 : Bool)
      → Keeps {D = D} (store_conditional32 v0 v1 v2 v3 b4)
  unfolding store_conditional32
  store_conditional32-Keeps v0 v1 v2 v3 b4 = search (step_io) depth 30 fits 3000

  pub store_conditional64-Keeps :
      (v0 : ℕ) (v1 : ℕ) (v2 : ℕ) (v3 : ℕ) (b4 : Bool)
      → Keeps {D = D} (store_conditional64 v0 v1 v2 v3 b4)
  unfolding store_conditional64
  store_conditional64-Keeps v0 v1 v2 v3 b4 = search (step_io) depth 30 fits 3000

  pub process_rv32a_store-Keeps : (o : Op) → Keeps {D = D} (process_rv32a_store o)
  unfolding process_rv32a_store
  process_rv32a_store-Keeps o = search (step_io, store_conditional32-Keeps) depth 30 fits 3000

  pub process_rv64a_store32-Keeps : (o : Op) → Keeps {D = D} (process_rv64a_store32 o)
  unfolding process_rv64a_store32
  process_rv64a_store32-Keeps o = search (step_io, store_conditional64-Keeps) depth 30 fits 3000

  pub process_rv64a_store64-Keeps : (o : Op) → Keeps {D = D} (process_rv64a_store64 o)
  unfolding process_rv64a_store64
  process_rv64a_store64-Keeps o = search (step_io, store_conditional64-Keeps) depth 30 fits 3000

  ruleset process_rv32a_code_parts =
      (process_rv32a_atomic-Keeps, process_rv32a_load-Keeps, process_rv32a_store-Keeps)

  pub process_rv32a_code-Keeps : (c0 : OpCode) (o : Op) → Keeps {D = D} (process_rv32a_code c0 o)
  unfolding process_rv32a_code
  process_rv32a_code-Keeps OpCode.lr_w o =
      search (step_io, process_rv32a_code_parts) depth 30 fits 3000
  process_rv32a_code-Keeps _ o = search (step_io, process_rv32a_code_parts) depth 30 fits 3000

  pub process_rv32a-Keeps : (o : Op) → Keeps {D = D} (process_rv32a o)
  unfolding process_rv32a
  process_rv32a-Keeps o = search (step_io, process_rv32a_code-Keeps) depth 30 fits 3000

  ruleset process_rv64a_code_parts = (
    process_rv64a_atomic32-Keeps, process_rv64a_atomic64-Keeps, process_rv64a_load32-Keeps,
    process_rv64a_load64-Keeps, process_rv64a_store32-Keeps, process_rv64a_store64-Keeps,
  )

  pub process_rv64a_code-Keeps : (c0 : OpCode) (o : Op) → Keeps {D = D} (process_rv64a_code c0 o)
  unfolding process_rv64a_code
  process_rv64a_code-Keeps OpCode.lr_w o =
      search (step_io, process_rv64a_code_parts) depth 30 fits 3000
  process_rv64a_code-Keeps _ o = search (step_io, process_rv64a_code_parts) depth 30 fits 3000

  pub process_rv64a-Keeps : (o : Op) → Keeps {D = D} (process_rv64a o)
  unfolding process_rv64a
  process_rv64a-Keeps o = search (step_io, process_rv64a_code-Keeps) depth 30 fits 3000
