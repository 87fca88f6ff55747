-- ===== src/Common/Results.antt =====
-- How a C++ call ends: with a value, with `RafiEmuException` (the macros of
-- include/rafi/emu/Macro.h throw it), or without a meaning: a failed `assert`, an access out of an
-- array, a value that was never written.
use Prim.Native.Nat.{ℕ}
use mathlib.Core.Path.{◌≡◌, refl}
use mathlib.Core.Bool.{Bool, true, false}
use rafi_emu.Common.Tests.{leb, if◌then◌else◌}

pub data Outcome {ℓ} (A : Type ℓ) : Type ℓ where
  ok : A → Outcome A
  throws : Outcome A
  undefined : Outcome A

infixl 5 ◌>>=◌ ◌>>◌
abbrev pub ◌>>=◌ {ℓ κ} : {A : Type ℓ} {B : Type κ} → Outcome A → (A → Outcome B) → Outcome B
ok a >>= f = f a
throws >>= f = throws
undefined >>= f = undefined

abbrev pub ◌>>◌ {ℓ} : {B : Type ℓ} → Outcome (Unit {0}) → Outcome B → Outcome B
m >> k = m >>= λ _. k

-- `if (!b) throw RafiEmuException();`
abbrev pub throw_unless : Bool → Outcome (Unit {0})
throw_unless true = ok tt
throw_unless false = throws

-- `RAFI_EMU_CHECK_RANGE(0, value, upper)`, which also lets `value == upper` pass.
abbrev pub check_range : ℕ → ℕ → Outcome (Unit {0})
check_range value upper = throw_unless (leb value upper)

-- `assert(b)`: past a false one nothing is promised.
abbrev pub assert : Bool → Outcome (Unit {0})
assert true = ok tt
assert false = undefined

-- The call ends with a value, which has the property `P`.
pub data Returns {ℓ} {A : Type ℓ} (P : A → Type 0) : Outcome A → Type ℓ where
  returns : {a : A} → P a → Returns P (ok a)

pub Returns-bind {ℓ κ} :
    {A : Type ℓ} {B : Type κ} {P : A → Type 0} {Q : B → Type 0} {m : Outcome A} {f : A → Outcome B}
    → Returns P m
    → ((a : A) → P a → Returns Q (f a))
    → Returns Q (m >>= f)
Returns-bind (returns p) k = k _ p

-- The value that a call ends with.
pub Returns-value {ℓ} :
    {A : Type ℓ} {P : A → Type 0} {m : Outcome A} → Returns P m → (a : A) × (m ≡ ok a) × P a
Returns-value (returns p) = (_, refl, p)

pub Returns-if {ℓ} :
    {A : Type ℓ} {P : A → Type 0} (b : Bool) {x y : Outcome A}
    → Returns P x
    → Returns P y
    → Returns P (if b then x else y)
Returns-if true hx hy = hx
Returns-if false hx hy = hy
