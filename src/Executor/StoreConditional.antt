-- ===== src/Executor/StoreConditional.antt =====
-- src/rafi-emu/cpu/Executor.cpp: SC.D on an address that is not reserved.
use rafi_emu.Common.{
  ℕ, Bool, false, ok, ◌≡◌, ◌≢◌, ◌<◌, ◌&&◌, ◌==◌, arith, get_elem?, set, some, refl,
}
use rafi_emu.Bus.{Io}
use rafi_emu.RegFile.Atomic.{AtomicManager, cancel}
use rafi_emu.RegFile.Laws.{read_int64-entry, write_int64-run}
use rafi_emu.Op.{OpClass, OpCode, op, operand_r}
use rafi_emu.Executor.Machine.{
  Machine, ◌>>=◌, ◌>>◌, lift, read_x64, write_x64, holds_reservation, cancel_reservation,
}
use rafi_emu.Executor.Keeps.{IsMachine}
use rafi_emu.Executor.Atomics.{store_conditional64, process_rv64a_store64}

abbrev pub holds : AtomicManager → ℕ → Bool
holds a address = a.reserved && a.address == address

module _ {D : Type 0} ⦃io : Io D⦄ where
  -- SC.D to an address that is not the reserved one, or without a reservation, stores nothing in
  -- memory: it writes 1 to its register rd, which is not x0, and drops the reservation. The register
  -- file has 32 entries and 0 in x0.
  pub process_rv64a_store64-fails :
      (m : Machine D) (rd rs1 rs2 address value f3 f7 : ℕ)
      → rd < 32
      → rs1 < 32
      → rs2 < 32
      → rd ≢ 0
      → IsMachine m
      → get_elem? m.int_reg_file.entries rs1 ≡ some address
      → get_elem? m.int_reg_file.entries rs2 ≡ some value
      → holds m.atomic_manager address ≡ false
      → process_rv64a_store64 (op OpClass.rv64a OpCode.sc_d (operand_r rd rs1 rs2 f3 f7)) m
        ≡ ok (
          tt,
          record m {
            atomic_manager = cancel m.atomic_manager;
            int_reg_file = record { entries = set m.int_reg_file.entries rd 1 };
          },
        )
  unfolding process_rv64a_store64 store_conditional64 ◌>>=◌ ◌>>◌ lift read_x64 write_x64
      holds_reservation cancel_reservation
  process_rv64a_store64-fails m rd rs1 rs2 address value f3 f7 hd h1 h2 h0 w ea eb free =
      rw
        (
          read_int64-entry m.int_reg_file rs1 address (omega arith) ea,
          read_int64-entry m.int_reg_file rs2 value (omega arith) eb,
          free,
          write_int64-run m.int_reg_file rd 1 hd h0 w.size,
        )
        refl
