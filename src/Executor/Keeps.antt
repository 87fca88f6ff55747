-- ===== src/Executor/Keeps.antt =====
-- src/rafi-emu/cpu/Executor.cpp: the register file over the steps of an executor.
use rafi_emu.Common.{
  ℕ, ◌≡◌, ◌≢◌, refl, sym, ◌∙◌, ap, ◌==◌, ==_iff, Bool, Bool-cases, true, false, ◌⊎◌, inl, inr,
  if◌then◌else◌, Outcome, ok, throws, undefined, some, get_elem?, length, set, get_elem?-set_ne,
  length-set, ltb, leb, ◌≤◌, ◌<◌, List, Option, none, arith,
}
use rafi_emu.Common as C
use rafi_emu.RvTypes.{PrivilegeLevel, MemoryAccessType}
use rafi_emu.Bus.{Io}
use rafi_emu.Trap.{Trap}
use rafi_emu.RegFile.{with_low, entry_at, entry_set}
use rafi_emu.RegFile.Integer.{IntRegFile, read_int32, read_int64, write_int32, write_int64}
use rafi_emu.RegFile.Floating.{read_fp32, read_fp64, write_fp32, write_fp64}
use rafi_emu.Csr.Read.{read_u32, read_u64}
use rafi_emu.Csr.Write.{write_u32, write_u64}
use rafi_emu.TrapProcessor.{process_trap_return}
use rafi_emu.MemoryAccessUnit.Translate.{check_trap, load_uint, store_uint}
use rafi_emu.RegFile.Laws.{IsRegFile}
use rafi_emu.Executor.Machine.{
  Machine, E, ◌>>=◌, ◌>>◌, unless_trap, lift, read_x32, read_x64, write_x32, write_x64, read_f32,
  read_f64, write_f32, write_f64, cancel_reservation, reserve_address, holds_reservation, get_csr,
  set_pc, read_csr32, read_csr64, write_csr32, write_csr64, trap_return, load, store, check_access,
}

-- If the call ends with a value, the value has the property.
pub data Leaves {ℓ} {A : Type ℓ} (P : A → Type 0) : Outcome A → Type ℓ where
  leaves : {a : A} → P a → Leaves P (ok a)
  leaves_throws : Leaves P throws
  leaves_undefined : Leaves P undefined

pub Leaves-bind {ℓ κ} :
    {A : Type ℓ} {B : Type κ} {P : A → Type 0} {Q : B → Type 0} {o : Outcome A} {f : A → Outcome B}
    → Leaves P o
    → ((a : A) → P a → Leaves Q (f a))
    → Leaves Q (C.◌>>=◌ o f)
Leaves-bind (leaves p) k = k _ p
Leaves-bind leaves_throws k = leaves_throws
Leaves-bind leaves_undefined k = leaves_undefined

pub Leaves-if {ℓ} :
    {A : Type ℓ} {P : A → Type 0} (b : Bool) {x y : Outcome A}
    → Leaves P x
    → Leaves P y
    → Leaves P (if b then x else y)
Leaves-if true h k = h
Leaves-if false h k = k

pub Leaves-any {ℓ} : {A : Type ℓ} (o : Outcome A) → Leaves (λ _. Unit) o
Leaves-any (ok a) = leaves tt
Leaves-any throws = leaves_throws
Leaves-any undefined = leaves_undefined

set-IsRegFile :
    (f : IntRegFile) (i v : ℕ)
    → i ≢ 0
    → IsRegFile f
    → IsRegFile (record { entries = set f.entries i v })
set-IsRegFile f i v n w = record {
  size = length-set f.entries i v ∙ w.size;
  x0 = get_elem?-set_ne f.entries v n ∙ w.x0;
}

entry_set-IsRegFile :
    (f : IntRegFile) (i v : ℕ)
    → i ≢ 0
    → IsRegFile f
    → Leaves IsRegFile (C.◌>>=◌ (entry_set f.entries i v) (λ es. ok (record { entries = es })))
entry_set-IsRegFile f i v n w = elim (Bool-cases (ltb i (length f.entries))) [
  | inl e ↦ rw e (leaves (set-IsRegFile f i v n w))
  | inr e ↦ rw e leaves_undefined
]

nonzero : (i : ℕ) → (i == 0) ≡ false → i ≢ 0
nonzero i e z = ground (arith, e, z)

Leaves-unless {ℓ} :
    {A : Type ℓ} {P : A → Type 0} (b : Bool) {x y : Outcome A}
    → Leaves P x
    → (b ≡ false → Leaves P y)
    → Leaves P (if b then x else y)
Leaves-unless true h k = h
Leaves-unless false h k = k refl

pub write_int64-IsRegFile :
    (f : IntRegFile) (i v : ℕ) → IsRegFile f → Leaves IsRegFile (write_int64 f i v)
unfolding write_int64
write_int64-IsRegFile f i v w =
    Leaves-bind (Leaves-any _)
      (λ _ _. Leaves-unless (i == 0) (leaves w) (λ e. entry_set-IsRegFile f i v (nonzero i e) w))

pub write_int32-IsRegFile :
    (f : IntRegFile) (i v : ℕ) → IsRegFile f → Leaves IsRegFile (write_int32 f i v)
unfolding write_int32
write_int32-IsRegFile f i v w = Leaves-bind (Leaves-any _) (λ _ _.
    Leaves-unless (i == 0) (leaves w) (λ e.
      Leaves-bind (Leaves-any (entry_at f.entries i))
        (λ a _. entry_set-IsRegFile f i (with_low a v) (nonzero i e) w)))

-- A machine whose register file is whole.
abbrev pub IsMachine : {D : Type 0} → Machine D → Type 0
IsMachine m = IsRegFile m.int_reg_file

-- From a whole machine, the step leaves a whole one if it returns.
pub data Keeps {D A : Type 0} (c : E D A) : Type 0 where
  keeps : ((m : Machine D) → IsMachine m → Leaves (λ r. IsMachine r.1) (c m)) → Keeps c

pub Keeps-run :
    {D A : Type 0} {c : E D A}
    → Keeps c
    → (m : Machine D) → IsMachine m
    → Leaves (λ r. IsMachine r.1) (c m)
Keeps-run (keeps h) = h

module _ {D : Type 0} where
  pub Keeps-bind :
      {A B : Type 0} {c : E D A} {f : A → E D B}
      → Keeps c
      → ((a : A) → Keeps (f a))
      → Keeps (c >>= f)
  unfolding ◌>>=◌
  Keeps-bind (keeps h) k = keeps λ m w. Leaves-bind (h m w) (λ r v. Keeps-run (k r.0) r.1 v)

  pub Keeps-then :
      {B : Type 0} {c : E D (Unit {0})} {d : E D B} → Keeps c → Keeps d → Keeps (c >> d)
  unfolding ◌>>◌
  Keeps-then (keeps h) k = keeps λ m w. Leaves-bind (h m w) (λ r v. Keeps-run k r.1 v)

  pub Keeps-if :
      {A : Type 0} (b : Bool) {c d : E D A} → Keeps c → Keeps d → Keeps (if b then c else d)
  Keeps-if true h k = h
  Keeps-if false h k = k

  pub unless_trap-Keeps :
      (t : Option Trap) {c : E D (Option Trap)} → Keeps c → Keeps (unless_trap t c)
  unfolding unless_trap
  unless_trap-Keeps none h = h
  unless_trap-Keeps (some t) h = keeps λ m w. leaves w

  pub pure-Keeps : {A : Type 0} (a : A) → Keeps {D = D} (λ m. ok (a, m))
  pure-Keeps a = keeps λ m w. leaves w

  pub lift-Keeps : {A : Type 0} (o : Outcome A) → Keeps {D = D} (lift o)
  unfolding lift
  lift-Keeps o = keeps λ m w. Leaves-bind (Leaves-any o) (λ a _. leaves w)

  pub read_x32-Keeps : (i : ℕ) → Keeps {D = D} (read_x32 i)
  unfolding read_x32
  read_x32-Keeps i =
      keeps λ m w. Leaves-bind (Leaves-any (read_int32 m.int_reg_file i)) (λ _ _. leaves w)

  pub read_x64-Keeps : (i : ℕ) → Keeps {D = D} (read_x64 i)
  unfolding read_x64
  read_x64-Keeps i =
      keeps λ m w. Leaves-bind (Leaves-any (read_int64 m.int_reg_file i)) (λ _ _. leaves w)

  pub read_f32-Keeps : (i : ℕ) → Keeps {D = D} (read_f32 i)
  unfolding read_f32
  read_f32-Keeps i =
      keeps λ m w. Leaves-bind (Leaves-any (read_fp32 m.fp_reg_file i)) (λ _ _. leaves w)

  pub read_f64-Keeps : (i : ℕ) → Keeps {D = D} (read_f64 i)
  unfolding read_f64
  read_f64-Keeps i =
      keeps λ m w. Leaves-bind (Leaves-any (read_fp64 m.fp_reg_file i)) (λ _ _. leaves w)

  pub read_csr32-Keeps : (a : ℕ) → Keeps {D = D} (read_csr32 a)
  unfolding read_csr32
  read_csr32-Keeps a = keeps λ m w. Leaves-bind (Leaves-any (read_u32 m.csr a)) (λ _ _. leaves w)

  pub read_csr64-Keeps : (a : ℕ) → Keeps {D = D} (read_csr64 a)
  unfolding read_csr64
  read_csr64-Keeps a = keeps λ m w. Leaves-bind (Leaves-any (read_u64 m.csr a)) (λ _ _. leaves w)

  pub write_f32-Keeps : (i v : ℕ) → Keeps {D = D} (write_f32 i v)
  unfolding write_f32
  write_f32-Keeps i v =
      keeps λ m w. Leaves-bind (Leaves-any (write_fp32 m.fp_reg_file i v)) (λ _ _. leaves w)

  pub write_f64-Keeps : (i v : ℕ) → Keeps {D = D} (write_f64 i v)
  unfolding write_f64
  write_f64-Keeps i v =
      keeps λ m w. Leaves-bind (Leaves-any (write_fp64 m.fp_reg_file i v)) (λ _ _. leaves w)

  pub write_csr32-Keeps : (i v : ℕ) → Keeps {D = D} (write_csr32 i v)
  unfolding write_csr32
  write_csr32-Keeps i v =
      keeps λ m w. Leaves-bind (Leaves-any (write_u32 m.csr i v)) (λ _ _. leaves w)

  pub write_csr64-Keeps : (i v : ℕ) → Keeps {D = D} (write_csr64 i v)
  unfolding write_csr64
  write_csr64-Keeps i v =
      keeps λ m w. Leaves-bind (Leaves-any (write_u64 m.csr i v)) (λ _ _. leaves w)

  pub write_x32-Keeps : (i v : ℕ) → Keeps {D = D} (write_x32 i v)
  unfolding write_x32
  write_x32-Keeps i v =
      keeps λ m w. Leaves-bind (write_int32-IsRegFile m.int_reg_file i v w) (λ f h. leaves h)

  pub write_x64-Keeps : (i v : ℕ) → Keeps {D = D} (write_x64 i v)
  unfolding write_x64
  write_x64-Keeps i v =
      keeps λ m w. Leaves-bind (write_int64-IsRegFile m.int_reg_file i v w) (λ f h. leaves h)

  pub cancel_reservation-Keeps : Keeps {D = D} cancel_reservation
  unfolding cancel_reservation
  cancel_reservation-Keeps = keeps λ m w. leaves w

  pub reserve_address-Keeps : (a : ℕ) → Keeps {D = D} (reserve_address a)
  unfolding reserve_address
  reserve_address-Keeps a = keeps λ m w. leaves w

  pub holds_reservation-Keeps : (a : ℕ) → Keeps {D = D} (holds_reservation a)
  unfolding holds_reservation
  holds_reservation-Keeps a = keeps λ m w. leaves w

  pub get_csr-Keeps : Keeps {D = D} get_csr
  unfolding get_csr
  get_csr-Keeps = keeps λ m w. leaves w

  pub set_pc-Keeps : (a : ℕ) → Keeps {D = D} (set_pc a)
  unfolding set_pc
  set_pc-Keeps a = keeps λ m w. leaves w

  pub trap_return-Keeps : (l : PrivilegeLevel) → Keeps {D = D} (trap_return l)
  unfolding trap_return
  trap_return-Keeps l = keeps λ m w.
      Leaves-bind (Leaves-any (process_trap_return m.trap_processor m.csr l)) (λ _ _. leaves w)

module _ {D : Type 0} ⦃io : Io D⦄ where
  pub load-Keeps : (s a : ℕ) → Keeps {D = D} (load s a)
  unfolding load
  load-Keeps s a = keeps λ m w.
      Leaves-bind (Leaves-any (load_uint s m.mem_access_unit m.csr a m.bus)) (λ _ _. leaves w)

  pub store-Keeps : (s a v : ℕ) → Keeps {D = D} (store s a v)
  unfolding store
  store-Keeps s a v = keeps λ m w.
      Leaves-bind (Leaves-any (store_uint s m.mem_access_unit m.csr a v m.bus)) (λ _ _. leaves w)

  pub check_access-Keeps :
      (access : MemoryAccessType) (pc a : ℕ) → Keeps {D = D} (check_access access pc a)
  unfolding check_access
  check_access-Keeps access pc a = keeps λ m w.
      Leaves-bind (Leaves-any (check_trap m.mem_access_unit m.csr access pc a m.bus))
        (λ _ _. leaves w)

pub ruleset step = (
  Keeps-bind, Keeps-then, Keeps-if, pure-Keeps, unless_trap-Keeps, lift-Keeps, read_x32-Keeps,
  read_x64-Keeps, write_x32-Keeps, write_x64-Keeps, read_f32-Keeps, read_f64-Keeps, write_f32-Keeps,
  write_f64-Keeps, cancel_reservation-Keeps, reserve_address-Keeps, holds_reservation-Keeps,
  get_csr-Keeps, set_pc-Keeps, read_csr32-Keeps, read_csr64-Keeps, write_csr32-Keeps,
  write_csr64-Keeps, trap_return-Keeps,
)

pub ruleset step_io = (step, load-Keeps, store-Keeps, check_access-Keeps)
