-- ===== src/MemoryAccessUnit/Walk.antt =====
-- The page walk that CheckTrapSv32 to TranslateSv48 of src/rafi-emu/cpu/MemoryAccessUnit.cpp unroll, as
-- one recursion over the levels that are left. A level has the index into its table, and what is
-- done at a leaf of it, given the address and the value of the entry.
use rafi_emu.Common.{
  ℕ, ◌+◌, leb, Bool, true, false, if◌then◌else◌, Option, none, some, Outcome, ok, List, [], ◌∷◌,
  ◌≡◌, refl, throws, undefined, ap, ◌∙◌,
}
use rafi_emu.RvTypes.{MemoryAccessType}
use rafi_emu.Trap.{Trap}
use rafi_emu.Bus.{Bus, Io}
use rafi_emu.Csr.{Csr}
use rafi_emu.MemoryAccessUnit.{
  M, pure, ◌>>=◌, ◌>>◌, lift, make_trap, check_trap_for_leaf_entry, is_store, return_if_trap,
  EntryType, read_entry, check_trap_for_entry, is_leaf_entry, update_entry, Translation, fault,
  address,
}

pub record Level (D R : Type 0) : Type 0 where
  pub index : ℕ
  pub leaf : ℕ → ℕ → M D R

-- `m >>= f` at a bus where `m` gives `o`.
abbrev continue : {D A B : Type 0} → Outcome (A × Bus D) → (A → M D B) → Outcome (B × Bus D)
continue o f = elim o [ ok r ↦ f r.0 r.1 | throws ↦ throws | undefined ↦ undefined ]

bind_inversion :
    {D A B : Type 0} (o : Outcome (A × Bus D)) (f : A → M D B) {x : B × Bus D}
    → continue o f ≡ ok x
    → (r : A × Bus D) × (o ≡ ok r) × (f r.0 r.1 ≡ ok x)
bind_inversion (ok r) f h = (r, refl, h)
bind_inversion throws f h = cc
bind_inversion undefined f h = cc

bind_ok :
    {D A B : Type 0} (o : Outcome (A × Bus D)) (f : A → M D B) {r : A × Bus D}
    → o ≡ ok r
    → continue o f ≡ f r.0 r.1
bind_ok o f h = rw h refl

-- A leaf of the page tables: how many tables are above it, its address and its value.
pub record Leaf : Type 0 where
  pub depth : ℕ
  pub entry_address : ℕ
  pub entry : ℕ

-- The walk that only looks: it follows the entries by the indices until one is a leaf or the indices
-- are used up.
unfoldable pub find_leaf :
    {D : Type 0} ⦃io : Io D⦄ (t : EntryType) (next : ℕ → ℕ → ℕ) (depth entry_address : ℕ)
    → List ℕ
    → M D Leaf
find_leaf t next depth a [] = do
  entry ← read_entry t a
  pure (record { depth = depth; entry_address = a; entry = entry })
find_leaf t next depth a (i ∷ is) = do
  entry ← read_entry t a
  (if is_leaf_entry t entry
      then pure (record { depth = depth; entry_address = a; entry = entry })
      else find_leaf t next (depth + 1) (next entry i) is)

-- A part of a page number: that of the leaf, if at least `least` tables are above it, or else that
-- of the virtual address.
abbrev pub part : ℕ → ℕ → ℕ → ℕ → ℕ
part least depth of_entry of_address = if leb least depth then of_entry else of_address

module _ {D : Type 0} ⦃io : Io D⦄ (t : EntryType) (is_write : Bool) (physical : ℕ → ℕ → ℕ) where
  -- Where the check of a leaf finds no trap, `find` finds that leaf over the same accesses, and the
  -- translation updates its entry and returns the address that `physical` gives for its depth and its value.
  abbrev pub Completes : M D Leaf → M D (Option Trap) → M D Translation → Type 0
  Completes find check translate =
      (b c : Bus D)
      → check b ≡ ok (none, c)
      → (l : Leaf) × (find b ≡ ok (l, c))
        × (translate b
            ≡ (update_entry t l.entry_address is_write >> pure (address (physical l.depth l.entry)))
                c)

  abbrev pub LeafCompletes : ℕ → (ℕ → ℕ → M D (Option Trap)) → (ℕ → ℕ → M D Translation) → Type 0
  LeafCompletes depth check translate =
      (a e : ℕ)
      → Completes (pure (record { depth = depth; entry_address = a; entry = e })) (check a e)
          (translate a e)

  -- Two lists of levels use the indices of the address and complete at each leaf.
  abbrev pub LevelsComplete :
      ℕ → List ℕ → List (Level D (Option Trap)) → List (Level D Translation) → Type 0
  LevelsComplete depth [] [] [] = Unit {0}
  LevelsComplete depth (i ∷ is) (k ∷ ks) (l ∷ ls) =
      (k.index ≡ i)
      × (l.index ≡ i)
      × LeafCompletes depth k.leaf l.leaf
      × LevelsComplete (depth + 1) is ks ls
  LevelsComplete depth _ _ _ = ⊥

  bind-Completes :
      {A : Type 0} (m : M D A) (h : A → M D Leaf) (f : A → M D (Option Trap))
      (g : A → M D Translation)
      → ((a : A) → Completes (h a) (f a) (g a))
      → Completes (m >>= h) (m >>= f) (m >>= g)
  bind-Completes m h f g k b c e =
      let (r, ran, rest) = bind_inversion (m b) f e in
      let (l, finds, done) = k r.0 r.1 c rest in
      (l, bind_ok (m b) h ran ∙ finds, bind_ok (m b) g ran ∙ done)

  trap-Completes :
      (trap : Option Trap) (find : M D Leaf) (check : M D (Option Trap))
      (translate : M D Translation)
      → Completes find check translate
      → Completes find (return_if_trap some trap check) (return_if_trap fault trap translate)
  trap-Completes (some x) find check translate h b c e = cc
  trap-Completes none find check translate h b c e = h b c e

  if-Completes :
      (test : Bool) (find find' : M D Leaf) (check check' : M D (Option Trap))
      (translate translate' : M D Translation)
      → Completes find check translate
      → Completes find' check' translate'
      → Completes
          (if test then find else find')
          (if test then check else check')
          (if test then translate else translate')
  if-Completes true find find' check check' translate translate' h k = h
  if-Completes false find find' check check' translate translate' h k = k

module _ {D : Type 0} ⦃io : Io D⦄ (t : EntryType) (next : ℕ → ℕ → ℕ) (access : MemoryAccessType)
    (pc addr : ℕ) where
  -- `next entry index` is the address of the entry `index` of the table that `entry` points to, and
  -- `entry_address`, `leaf` belong to the current level.
  unfoldable pub walk : {R : Type 0} → (Trap → R) → ℕ → (ℕ → ℕ → M D R) → List (Level D R) → M D R
  walk trap entry_address leaf [] = do
    entry ← read_entry t entry_address
    return_if_trap trap (check_trap_for_entry t entry access pc addr) (leaf entry_address entry)
  walk trap entry_address leaf (l ∷ ls) = do
    entry ← read_entry t entry_address
    return_if_trap trap (check_trap_for_entry t entry access pc addr) (
        if is_leaf_entry t entry
        then leaf entry_address entry
        else walk trap (next entry l.index) l.leaf ls)

  -- A walk that checks without finding a trap is followed by the walk that translates.
  pub walk-Completes :
      (is_write : Bool) (physical : ℕ → ℕ → ℕ) (depth entry_address : ℕ) (is : List ℕ)
      (check : ℕ → ℕ → M D (Option Trap)) (translate : ℕ → ℕ → M D Translation)
      (ks : List (Level D (Option Trap))) (ls : List (Level D Translation))
      → LeafCompletes t is_write physical depth check translate
      → LevelsComplete t is_write physical (depth + 1) is ks ls
      → Completes t is_write physical
          (find_leaf t next depth entry_address is)
          (walk some entry_address check ks)
          (walk fault entry_address translate ls)
  unfolding walk find_leaf
  walk-Completes w P depth a [] check translate [] [] h _ =
      bind-Completes t w P (read_entry t a) _ _ _ λ entry. trap-Completes t w P _ _ _ _ (h a entry)
  walk-Completes w P depth a (i ∷ is) check translate (k ∷ ks) (l ∷ ls) h (same, also, leaf, hs) =
      bind-Completes t w P (read_entry t a) _ _ _ λ entry. trap-Completes t w P _ _ _ _ (
        if-Completes t w P (is_leaf_entry t entry) _ _ _ _ _ _ (h a entry) (
          rw (same, also)
            (walk-Completes w P (depth + 1) (next entry i) is k.leaf l.leaf ks ls leaf hs)))
  walk-Completes w P depth a _ check translate _ _ h hs = absurd hs

module _ {D : Type 0} ⦃io : Io D⦄ (c : Csr) (t : EntryType) (access : MemoryAccessType)
    (pc addr : ℕ) where
  -- The check of a leaf above the last level: `low entry` says that a low part of the page number
  -- is not zero.
  abbrev pub check_leaf : (ℕ → Bool) → ℕ → ℕ → M D (Option Trap)
  check_leaf low entry_address entry = do
    trap ← lift (check_trap_for_leaf_entry c t entry access pc addr)
    return_if_trap some trap (pure (if low entry then some (make_trap access pc addr) else none))

  abbrev pub check_last : ℕ → ℕ → M D (Option Trap)
  check_last entry_address entry = lift (check_trap_for_leaf_entry c t entry access pc addr)

  abbrev pub translate_leaf : (ℕ → ℕ) → ℕ → ℕ → M D Translation
  translate_leaf physical entry_address entry = do
    trap ← lift (check_trap_for_leaf_entry c t entry access pc addr)
    return_if_trap fault trap
        (update_entry t entry_address (is_store access) >> pure (address (physical entry)))

  abbrev update_to : ℕ → ℕ → M D Translation
  update_to a p = update_entry t a (is_store access) >> pure (address p)

  found_none :
      (o : Outcome (Option Trap)) (found : Option Trap) (a p : ℕ) (b d : Bus D)
      → (lift o >>= λ trap. return_if_trap some trap (pure found)) b ≡ ok (none, d)
      → (lift o >>= λ trap. return_if_trap fault trap (update_to a p)) b ≡ update_to a p d
  found_none (ok none) none a p b d h = let same : b ≡ d = cc in ap (update_to a p) same
  found_none (ok none) (some x) a p b d h = cc
  found_none (ok (some x)) found a p b d h = cc
  found_none throws found a p b d h = cc
  found_none undefined found a p b d h = cc

  lift-return :
      (o : Outcome (Option Trap)) (b : Bus D)
      → (lift o >>= λ trap. return_if_trap some trap (pure none)) b ≡ lift o b
  lift-return (ok none) b = refl
  lift-return (ok (some x)) b = refl
  lift-return throws b = refl
  lift-return undefined b = refl

  found_same :
      (o : Outcome (Option Trap)) (found : Option Trap) (b d : Bus D)
      → (lift o >>= λ trap. return_if_trap some trap (pure found)) b ≡ ok (none, d)
      → b ≡ d
  found_same (ok none) none b d h = cc
  found_same (ok none) (some x) b d h = cc
  found_same (ok (some x)) found b d h = cc
  found_same throws found b d h = cc
  found_same undefined found b d h = cc

  pub check_leaf-Completes :
      (physical : ℕ → ℕ → ℕ) (depth : ℕ) (low : ℕ → Bool)
      → LeafCompletes t
          (is_store access)
          physical
          depth
          (check_leaf low)
          (translate_leaf (physical depth))
  check_leaf-Completes physical depth low a e b d found =
      let o = check_trap_for_leaf_entry c t e access pc addr in
      let leaf : Leaf = record { depth = depth; entry_address = a; entry = e } in
      (
        leaf,
        ap (λ (x : Bus D). ok (leaf, x)) (found_same o _ b d found),
        found_none o _ a (physical depth e) b d found,
      )

  pub check_last-Completes :
      (physical : ℕ → ℕ → ℕ) (depth : ℕ)
      → LeafCompletes t
          (is_store access)
          physical
          depth
          check_last
          (translate_leaf (physical depth))
  check_last-Completes physical depth a e b d found =
      let o = check_trap_for_leaf_entry c t e access pc addr in
      let checked = lift-return o b ∙ found in
      let leaf : Leaf = record { depth = depth; entry_address = a; entry = e } in
      (
        leaf,
        ap (λ (x : Bus D). ok (leaf, x)) (found_same o none b d checked),
        found_none o none a (physical depth e) b d checked,
      )
