-- ===== src/Executor/Runs.antt =====
-- src/rafi-emu/cpu/Executor.cpp: steps and the results that they return.
use rafi_emu.Common.{
  ℕ, zero, suc, ◌<◌, ◌≤◌, ◌≡◌, ◌≢◌, refl, ◌∙◌, arith, Bool, true, false, if◌then◌else◌, Outcome, ok,
  Returns, returns, Returns-bind, some, get_elem?-below, ◌==◌, ==_iff, Bool-cases, ◌⊎◌, inl, inr,
}
use rafi_emu.Common as C
use rafi_emu.RegFile.Integer.{IntRegFile, read_int32, read_int64, write_int32, write_int64}
use rafi_emu.RegFile.Laws.{
  IsRegFile, read_int64-entry, write_int64-run, read_int32-entry, write_int32-run, write_int-x0,
}
use rafi_emu.Executor.Machine.{
  Machine, E, ◌>>=◌, ◌>>◌, lift, read_x32, read_x64, write_x32, write_x64, cancel_reservation,
  set_pc,
}
use rafi_emu.Executor.Keeps.{
  IsMachine, Leaves, leaves, write_int64-IsRegFile, write_int32-IsRegFile,
}

-- The call ends with a value.
abbrev pub IsOk {ℓ} : {A : Type ℓ} → Outcome A → Type ℓ
IsOk o = Returns (λ _. Unit) o

pub ok-IsOk {ℓ} : {A : Type ℓ} {o : Outcome A} (a : A) → o ≡ ok a → IsOk o
ok-IsOk a e = rw e (returns tt)

pub IsOk-bind {ℓ κ} :
    {A : Type ℓ} {B : Type κ} {o : Outcome A} {f : A → Outcome B}
    → IsOk o
    → ((a : A) → IsOk (f a))
    → IsOk (C.◌>>=◌ o f)
IsOk-bind h k = Returns-bind h (λ a _. k a)

both {ℓ} : {A : Type ℓ} {P : A → Type 0} {o : Outcome A} → IsOk o → Leaves P o → Returns P o
both (returns _) (leaves p) = returns p

read_int64-IsOk : (f : IntRegFile) (i : ℕ) → IsRegFile f → i < 32 → IsOk (read_int64 f i)
read_int64-IsOk f i w h =
    let (x, at) = get_elem?-below f.entries i (omega (arith, w.size)) in
    ok-IsOk x (read_int64-entry f i x (omega arith) at)

read_int32-IsOk : (f : IntRegFile) (i : ℕ) → IsRegFile f → i < 32 → IsOk (read_int32 f i)
read_int32-IsOk f i w h =
    let (x, at) = get_elem?-below f.entries i (omega (arith, w.size)) in
    ok-IsOk _ (read_int32-entry f i x (omega arith) at)

zero_or : (i : ℕ) → (i ≡ 0) ⊎ (i ≢ 0)
zero_or zero = inl refl
zero_or (suc i) = inr λ e. omega arith

write_int64-IsOk : (f : IntRegFile) (i v : ℕ) → IsRegFile f → i < 32 → IsOk (write_int64 f i v)
write_int64-IsOk f i v w h = elim (zero_or i) [
  | inl e ↦ rw e (ok-IsOk f (write_int-x0 f v).0)
  | inr n ↦ ok-IsOk _ (write_int64-run f i v h n w.size)
]

write_int32-IsOk : (f : IntRegFile) (i v : ℕ) → IsRegFile f → i < 32 → IsOk (write_int32 f i v)
write_int32-IsOk f i v w h = elim (zero_or i) [
  | inl e ↦ rw e (ok-IsOk f (write_int-x0 f v).1)
  | inr n ↦
      let (x, at) = get_elem?-below f.entries i (omega (arith, w.size)) in
      ok-IsOk _ (write_int32-run f i x v h n w.size at)
]

-- From a whole machine the step returns, and leaves a whole one.
pub data Runs {D A : Type 0} (c : E D A) : Type 0 where
  runs : ((m : Machine D) → IsMachine m → Returns (λ r. IsMachine r.1) (c m)) → Runs c

pub Runs-run :
    {D A : Type 0} {c : E D A}
    → Runs c
    → (m : Machine D) → IsMachine m
    → Returns (λ r. IsMachine r.1) (c m)
Runs-run (runs h) = h

module _ {D : Type 0} where
  pub Runs-bind :
      {A B : Type 0} {c : E D A} {f : A → E D B} → Runs c → ((a : A) → Runs (f a)) → Runs (c >>= f)
  unfolding ◌>>=◌
  Runs-bind (runs h) k = runs λ m w. Returns-bind (h m w) (λ r v. Runs-run (k r.0) r.1 v)

  -- A step that only names a value.
  pub Runs-lift : {A B : Type 0} (a : A) (f : A → E D B) → Runs (f a) → Runs (lift (ok a) >>= f)
  unfolding ◌>>=◌ lift
  Runs-lift a f h = h

  pub Runs-then : {B : Type 0} {c : E D (Unit {0})} {d : E D B} → Runs c → Runs d → Runs (c >> d)
  unfolding ◌>>◌
  Runs-then (runs h) k = runs λ m w. Returns-bind (h m w) (λ r v. Runs-run k r.1 v)

  pub Runs-if : {A : Type 0} (b : Bool) {c d : E D A} → Runs c → Runs d → Runs (if b then c else d)
  Runs-if true h k = h
  Runs-if false h k = k

  pub pure-Runs : {A : Type 0} (a : A) → Runs {D = D} (λ m. ok (a, m))
  pure-Runs a = runs λ m w. returns w

  pub lift-Runs : {A : Type 0} {o : Outcome A} → IsOk o → Runs {D = D} (lift o)
  unfolding lift
  lift-Runs h = runs λ m w. Returns-bind h (λ a _. returns w)

  pub read_x64-Runs : (i : ℕ) → i < 32 → Runs {D = D} (read_x64 i)
  unfolding read_x64
  read_x64-Runs i h =
      runs λ m w. Returns-bind (read_int64-IsOk m.int_reg_file i w h) (λ _ _. returns w)

  pub read_x32-Runs : (i : ℕ) → i < 32 → Runs {D = D} (read_x32 i)
  unfolding read_x32
  read_x32-Runs i h =
      runs λ m w. Returns-bind (read_int32-IsOk m.int_reg_file i w h) (λ _ _. returns w)

  pub write_x64-Runs : (i v : ℕ) → i < 32 → Runs {D = D} (write_x64 i v)
  unfolding write_x64
  write_x64-Runs i v h = runs λ m w.
      Returns-bind
        (both (write_int64-IsOk m.int_reg_file i v w h)
          (write_int64-IsRegFile m.int_reg_file i v w))
        (λ _ g. returns g)

  pub write_x32-Runs : (i v : ℕ) → i < 32 → Runs {D = D} (write_x32 i v)
  unfolding write_x32
  write_x32-Runs i v h = runs λ m w.
      Returns-bind
        (both (write_int32-IsOk m.int_reg_file i v w h)
          (write_int32-IsRegFile m.int_reg_file i v w))
        (λ _ g. returns g)

  pub cancel_reservation-Runs : Runs {D = D} cancel_reservation
  unfolding cancel_reservation
  cancel_reservation-Runs = runs λ m w. returns w

  pub set_pc-Runs : (a : ℕ) → Runs {D = D} (set_pc a)
  unfolding set_pc
  set_pc-Runs a = runs λ m w. returns w

pub ruleset run_steps = (
  Runs-lift, Runs-bind, Runs-then, Runs-if, pure-Runs, lift-Runs, returns, tt, read_x64-Runs,
  read_x32-Runs, write_x64-Runs, write_x32-Runs, cancel_reservation-Runs, set_pc-Runs,
)
