-- ===== src/Executor/Machine.antt =====
-- src/rafi-emu/cpu/Executor.h: what an `Executor` points to, and its steps on that state.
use rafi_emu.Common.{ℕ, Bool, Option, some, none, Outcome, ok, throws, ◌&&◌, ◌==◌}
use rafi_emu.Common as C
use rafi_emu.Bus.{Bus, Io}
use rafi_emu.Trap.{Trap}
use rafi_emu.RvTypes.{PrivilegeLevel, MemoryAccessType}
use rafi_emu.Csr.{Csr, set_program_counter}
use rafi_emu.Csr.Read.{read_u32, read_u64}
use rafi_emu.Csr.Write.{write_u32, write_u64}
use rafi_emu.TrapProcessor.{TrapProcessor, process_trap_return}
use rafi_emu.RegFile.Atomic.{AtomicManager, reserve, cancel}
use rafi_emu.RegFile.Integer.{IntRegFile, read_int32, read_int64, write_int32, write_int64}
use rafi_emu.RegFile.Floating.{FpRegFile, read_fp32, read_fp64, write_fp32, write_fp64}
use rafi_emu.MemoryAccessUnit.Translate.{MemoryAccessUnit, check_trap, load_uint, store_uint}

pub record Machine (D : Type 0) : Type 0 where
  pub atomic_manager : AtomicManager
  pub csr : Csr
  pub trap_processor : TrapProcessor
  pub int_reg_file : IntRegFile
  pub fp_reg_file : FpRegFile
  pub mem_access_unit : MemoryAccessUnit
  pub bus : Bus D

abbrev pub E : Type 0 → Type 0 → Type 0
E D A = Machine D → Outcome (A × Machine D)

-- The products of 128 bits that boost computes: the high 64 bits of signed by signed, of signed by
-- unsigned and of unsigned by unsigned.
pub record Wide : Type 0 where
  pub mulh : ℕ → ℕ → ℕ
  pub mulhsu : ℕ → ℕ → ℕ
  pub mulhu : ℕ → ℕ → ℕ

-- `Error(op)` reports the op and ends the process.
abbrev pub error : {A : Type 0} → Outcome A
error = throws

module _ {D : Type 0} where
  abbrev pub pure : {A : Type 0} → A → E D A
  pure a m = ok (a, m)

  infixl 5 ◌>>=◌ ◌>>◌
  unfoldable pub ◌>>=◌ : {A B : Type 0} → E D A → (A → E D B) → E D B
  ◌>>=◌ c f m = C.◌>>=◌ (c m) (λ r. f r.0 r.1)

  unfoldable pub ◌>>◌ : {B : Type 0} → E D (Unit {0}) → E D B → E D B
  ◌>>◌ c k m = C.◌>>=◌ (c m) (λ r. k r.1)

  -- `if (trap) return trap; return rest;`
  unfoldable pub unless_trap : Option Trap → E D (Option Trap) → E D (Option Trap)
  unless_trap (some t) rest = pure (some t)
  unless_trap none rest = rest

  -- A step that leaves the state alone.
  unfoldable pub lift : {A : Type 0} → Outcome A → E D A
  lift o m = C.◌>>=◌ o (λ a. ok (a, m))

  unfoldable pub read_x32 : ℕ → E D ℕ
  read_x32 id m = C.◌>>=◌ (read_int32 m.int_reg_file id) (λ v. ok (v, m))

  unfoldable pub read_x64 : ℕ → E D ℕ
  read_x64 id m = C.◌>>=◌ (read_int64 m.int_reg_file id) (λ v. ok (v, m))

  unfoldable pub write_x32 : ℕ → ℕ → E D (Unit {0})
  write_x32 id v m =
      C.◌>>=◌ (write_int32 m.int_reg_file id v) (λ f. ok (tt, record m { int_reg_file = f }))

  unfoldable pub write_x64 : ℕ → ℕ → E D (Unit {0})
  write_x64 id v m =
      C.◌>>=◌ (write_int64 m.int_reg_file id v) (λ f. ok (tt, record m { int_reg_file = f }))

  unfoldable pub read_f32 : ℕ → E D ℕ
  read_f32 id m = C.◌>>=◌ (read_fp32 m.fp_reg_file id) (λ v. ok (v, m))

  unfoldable pub read_f64 : ℕ → E D ℕ
  read_f64 id m = C.◌>>=◌ (read_fp64 m.fp_reg_file id) (λ v. ok (v, m))

  unfoldable pub write_f32 : ℕ → ℕ → E D (Unit {0})
  write_f32 id v m =
      C.◌>>=◌ (write_fp32 m.fp_reg_file id v) (λ f. ok (tt, record m { fp_reg_file = f }))

  unfoldable pub write_f64 : ℕ → ℕ → E D (Unit {0})
  write_f64 id v m =
      C.◌>>=◌ (write_fp64 m.fp_reg_file id v) (λ f. ok (tt, record m { fp_reg_file = f }))

  unfoldable pub cancel_reservation : E D (Unit {0})
  cancel_reservation m = ok (tt, record m { atomic_manager = cancel m.atomic_manager })

  unfoldable pub reserve_address : ℕ → E D (Unit {0})
  reserve_address a m = ok (tt, record m { atomic_manager = reserve m.atomic_manager a })

  -- `IsReserved() && GetReservedAddress() == address`
  unfoldable pub holds_reservation : ℕ → E D Bool
  holds_reservation a m = ok (m.atomic_manager.reserved && m.atomic_manager.address == a, m)

  unfoldable pub get_csr : E D Csr
  get_csr m = ok (m.csr, m)

  unfoldable pub set_pc : ℕ → E D (Unit {0})
  set_pc a m = ok (tt, record m { csr = set_program_counter m.csr a })

  unfoldable pub read_csr32 : ℕ → E D ℕ
  read_csr32 a m = C.◌>>=◌ (read_u32 m.csr a) (λ v. ok (v, m))

  unfoldable pub read_csr64 : ℕ → E D ℕ
  read_csr64 a m = C.◌>>=◌ (read_u64 m.csr a) (λ v. ok (v, m))

  unfoldable pub write_csr32 : ℕ → ℕ → E D (Unit {0})
  write_csr32 a v m = C.◌>>=◌ (write_u32 m.csr a v) (λ c. ok (tt, record m { csr = c }))

  unfoldable pub write_csr64 : ℕ → ℕ → E D (Unit {0})
  write_csr64 a v m = C.◌>>=◌ (write_u64 m.csr a v) (λ c. ok (tt, record m { csr = c }))

  unfoldable pub trap_return : PrivilegeLevel → E D (Unit {0})
  trap_return level m =
      C.◌>>=◌ (process_trap_return m.trap_processor m.csr level)
        (λ d. ok (tt, record m { trap_processor = d.processor; csr = d.csr }))

module _ {D : Type 0} ⦃io : Io D⦄ where
  -- `LoadUInt8` to `LoadUInt64`, by the number of bytes.
  unfoldable pub load : ℕ → ℕ → E D ℕ
  load size a m =
      C.◌>>=◌ (load_uint size m.mem_access_unit m.csr a m.bus)
        (λ r. ok (r.0.0, record m { mem_access_unit = r.0.1; bus = r.1 }))

  -- `StoreUInt8` to `StoreUInt64`; the value is cut to their width.
  unfoldable pub store : ℕ → ℕ → ℕ → E D (Unit {0})
  store size a v m =
      C.◌>>=◌ (store_uint size m.mem_access_unit m.csr a v m.bus)
        (λ r. ok (tt, record m { mem_access_unit = r.0; bus = r.1 }))

  -- `CheckTrap` reads page tables over the bus.
  unfoldable pub check_access : MemoryAccessType → ℕ → ℕ → E D (Option Trap)
  check_access access pc a m =
      C.◌>>=◌ (check_trap m.mem_access_unit m.csr access pc a m.bus)
        (λ r. ok (r.0, record m { bus = r.1 }))
