-- ===== src/Processor/Fetches.antt =====
-- src/rafi-emu/cpu/Processor.cpp: `Fetch`, which changes neither the control registers nor the integer ones.
use rafi_emu.Common.{ℕ, Bool, true, false, if◌then◌else◌, ◌≡◌, refl, ◌∙◌, Outcome, ok}
use rafi_emu.RvTypes.{instruction}
use rafi_emu.Bus.{Io}
use rafi_emu.MemoryAccessUnit.{Translation, fault, address}
use rafi_emu.MemoryAccessUnit.Translate.{translate, fetch_uint}
use rafi_emu.Executor.Machine.{Machine, E, ◌>>=◌}
use rafi_emu.Executor.Keeps.{
  Leaves, leaves, leaves_throws, leaves_undefined, Leaves-bind, Leaves-any,
}
use rafi_emu.Processor.Step.{
  Fetched, fetch_trap, fetched, translate_instruction, fetch_bytes, fetch_translated, fetch_high,
  fetch_rest, fetch,
}

abbrev pub SameRegisters : {D : Type 0} → Machine D → Machine D → Type 0
SameRegisters m n = (n.csr ≡ m.csr) × (n.int_reg_file ≡ m.int_reg_file)

-- The step leaves the registers, if it returns.
pub data Fetches {D A : Type 0} (c : E D A) : Type 0 where
  fetches : ((m : Machine D) → Leaves (λ r. SameRegisters m r.1) (c m)) → Fetches c

pub Fetches-run :
    {D A : Type 0} {c : E D A}
    → Fetches c
    → (m : Machine D) → Leaves (λ r. SameRegisters m r.1) (c m)
Fetches-run (fetches h) = h

after :
    {D A : Type 0} {o : Outcome (A × Machine D)} (m n : Machine D)
    → Leaves (λ r. SameRegisters n r.1) o
    → SameRegisters m n
    → Leaves (λ r. SameRegisters m r.1) o
after m n (leaves t) s = leaves (t.0 ∙ s.0, t.1 ∙ s.1)
after m n leaves_throws s = leaves_throws
after m n leaves_undefined s = leaves_undefined

module _ {D : Type 0} where
  Leaves-after :
      {A : Type 0} {c : E D A} (m n : Machine D)
      → Fetches c
      → SameRegisters m n
      → Leaves (λ r. SameRegisters m r.1) (c n)
  Leaves-after m n (fetches h) s = after m n (h n) s

  Fetches-bind :
      {A B : Type 0} {c : E D A} {f : A → E D B}
      → Fetches c
      → ((a : A) → Fetches (f a))
      → Fetches (c >>= f)
  unfolding ◌>>=◌
  Fetches-bind (fetches h) k = fetches λ m. Leaves-bind (h m) (λ r s. Leaves-after m r.1 (k r.0) s)

  Fetches-if :
      {A : Type 0} (b : Bool) {c d : E D A} → Fetches c → Fetches d → Fetches (if b then c else d)
  Fetches-if true h k = h
  Fetches-if false h k = k

  Fetches-pure : {A : Type 0} (a : A) → Fetches {D = D} (λ m. ok (a, m))
  Fetches-pure a = fetches λ m. leaves (refl, refl)

ruleset fetching = (Fetches-bind, Fetches-if, Fetches-pure)

module _ {D : Type 0} ⦃io : Io D⦄ where
  translate_instruction-Fetches : (v pc : ℕ) → Fetches {D = D} (translate_instruction v pc)
  unfolding translate_instruction
  translate_instruction-Fetches v pc = fetches λ m.
      Leaves-bind (Leaves-any (translate m.mem_access_unit m.csr instruction v pc m.bus))
        (λ _ _. leaves (refl, refl))

  fetch_bytes-Fetches : (s v p : ℕ) → Fetches {D = D} (fetch_bytes s v p)
  unfolding fetch_bytes
  fetch_bytes-Fetches s v p = fetches λ m.
      Leaves-bind (Leaves-any (fetch_uint s m.mem_access_unit v p m.bus))
        (λ _ _. leaves (refl, refl))

  fetch_translated-Fetches : (s v : ℕ) (t : Translation) → Fetches {D = D} (fetch_translated s v t)
  unfolding fetch_translated
  fetch_translated-Fetches s v (fault t) = search (fetching)
  fetch_translated-Fetches s v (address p) = search (fetching, fetch_bytes-Fetches)

  fetch_high-Fetches : (pc low : ℕ) (f : Fetched) → Fetches {D = D} (fetch_high pc low f)
  unfolding fetch_high
  fetch_high-Fetches pc low (fetch_trap t) = search (fetching)
  fetch_high-Fetches pc low (fetched h) = search (fetching)

  fetch_rest-Fetches : (pc : ℕ) (f : Fetched) → Fetches {D = D} (fetch_rest pc f)
  unfolding fetch_rest
  fetch_rest-Fetches pc (fetch_trap t) = search (fetching)
  fetch_rest-Fetches pc (fetched low) =
      search (fetching, translate_instruction-Fetches, fetch_translated-Fetches, fetch_high-Fetches)
        depth 20

  pub fetch-Fetches : (pc : ℕ) → Fetches {D = D} (fetch pc)
  unfolding fetch
  fetch-Fetches pc =
      search (fetching, translate_instruction-Fetches, fetch_translated-Fetches, fetch_rest-Fetches)
        depth 20
