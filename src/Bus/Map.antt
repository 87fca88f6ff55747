-- ===== src/Bus/Map.antt =====
-- The address map of the bus: which entry serves an address.
use rafi_emu.Common.{
  ℕ, ◌+◌, ◌-◌, ◌^◌, ◌≤◌, ◌<◌, ◌≡◌, refl, ◌⊎◌, arith, true, false, Bool-cases, List, [], ◌∷◌, ok,
  inl, inr,
}
use rafi_emu.Word.{u32, sext32}
use rafi_emu.Bus.{
  Info, Bus, contains, any_contains, convert_to_location, last_address, is_valid_address,
  is_memory_address,
}

-- An entry ends below 2^64, so its end does not wrap.
abbrev pub Fits : Info → Type 0
Fits i = i.address + i.size < 2 ^ 64

abbrev pub Apart : Info → Info → Type 0
Apart i j = (i.address + i.size ≤ j.address) ⊎ (j.address + j.size ≤ i.address)

abbrev pub AllFit : List Info → Type 0
AllFit [] = Unit {0}
AllFit (i ∷ is) = Fits i × AllFit is

abbrev pub ApartFrom : Info → List Info → Type 0
ApartFrom i [] = Unit {0}
ApartFrom i (j ∷ js) = Apart i j × ApartFrom i js

-- No two entries of a map overlap.
abbrev pub NoOverlap : List Info → Type 0
NoOverlap [] = Unit {0}
NoOverlap (i ∷ is) = ApartFrom i is × NoOverlap is

-- No entry of the first map overlaps one of the second.
abbrev pub MapsApart : List Info → List Info → Type 0
MapsApart [] js = Unit {0}
MapsApart (i ∷ is) js = ApartFrom i js × MapsApart is js

contains_bounds :
    (i : Info) (low high : ℕ)
    → Fits i
    → contains i low high ≡ true
    → (i.address ≤ low) × (high < i.address + i.size)
unfolding contains
contains_bounds i low high f h = ground arith

contains_of_bounds :
    (i : Info) (low high : ℕ)
    → Fits i
    → i.address ≤ low
    → high < i.address + i.size
    → contains i low high ≡ true
unfolding contains
contains_of_bounds i low high f h k = ground arith

contains_first :
    (i : Info) (low high : ℕ)
    → Fits i
    → low ≤ high
    → contains i low high ≡ true
    → contains i low low ≡ true
contains_first i low high f le h =
    let b = contains_bounds i low high f h in contains_of_bounds i low low f b.0 (omega arith)

-- An access that begins in one entry is in no entry apart from it.
none_contains :
    (i : Info) (js : List Info) (low high : ℕ)
    → Fits i
    → AllFit js
    → ApartFrom i js
    → low ≤ high
    → contains i low low ≡ true
    → any_contains js low high ≡ false
unfolding any_contains
none_contains i [] low high f fs a le h = refl
none_contains i (j ∷ js) low high f fs a le h = elim (Bool-cases (contains j low high)) [
  | inl k ↦ absurd (omega (arith, contains_bounds i low low f h, contains_bounds j low high fs.0 k))
  | inr k ↦ rw (k, any_contains) (none_contains i js low high f fs.1 a.1 le h)
]

-- The two maps never both hold an access.
never_both :
    (is js : List Info) (low high : ℕ)
    → AllFit is
    → AllFit js
    → MapsApart is js
    → low ≤ high
    → any_contains is low high ≡ true
    → any_contains js low high ≡ false
unfolding any_contains
never_both [] js low high fi fj a le h = cc
never_both (i ∷ is) js low high fi fj a le h = elim (Bool-cases (contains i low high)) [
  | inl k ↦ none_contains i js low high fi.0 fj a.0 le (contains_first i low high fi.0 le k)
  | inr k ↦ never_both is js low high fi.1 fj a.1 le (rw (k, any_contains) at h)
]

-- `IsValidAddress` asks for a memory and a device at once. Where no memory overlaps a device, it
-- refuses every access of at least one byte that does not wrap, also one that lies in a memory.
pub is_valid_address-false :
    {D : Type 0} (b : Bus D) (address size : ℕ)
    → AllFit b.memory_list
    → AllFit b.io_list
    → MapsApart b.memory_list b.io_list
    → 1 ≤ size
    → address + size ≤ 2 ^ 64
    → is_valid_address b address size ≡ false
unfolding is_valid_address
is_valid_address-false b address size fm fi a one wrap =
    elim (Bool-cases (any_contains b.memory_list address (last_address address size))) [
      | inl h ↦
          rw (h, is_memory_address)
            (never_both b.memory_list b.io_list address _ fm fi a (omega arith) h)
      | inr h ↦ rw (h, is_memory_address)
    ]

-- The entry that an access is served by, and the offset at which it is.
pub record Serves (l : List Info) (address size : ℕ) (i : Info) : Type 0 where
  pub converts :
      convert_to_location l address
      ≡ ok (record { target = i.target; offset = sext32 (u32 (address - i.address)) })
  pub starts : i.address ≤ address
  pub ends : address + size ≤ i.address + i.size

abbrev pub IsEntry : Info → List Info → Type 0
IsEntry i [] = ⊥
IsEntry i (j ∷ js) = (i ≡ j) ⊎ IsEntry i js

-- An access that the map holds begins in the map.
pub any_contains-first :
    (l : List Info) (address size : ℕ)
    → AllFit l
    → 1 ≤ size
    → address + size ≤ 2 ^ 64
    → any_contains l address (last_address address size) ≡ true
    → any_contains l address (last_address address 1) ≡ true
unfolding any_contains
any_contains-first [] address size f one wrap h = cc
any_contains-first (i ∷ l) address size f one wrap h =
    let same : last_address address 1 ≡ address = omega arith in
    elim (Bool-cases (contains i address (last_address address size))) [
      | inl k ↦ rw (same, contains_first i address _ f.0 (omega arith) k, any_contains)
      | inr k ↦ elim (Bool-cases (contains i address (last_address address 1))) [
        | inl m ↦ rw (m, any_contains)
        | inr m ↦
            rw (m, any_contains)
              (any_contains-first l address size f.1 one wrap (rw (k, any_contains) at h))
      ]
    ]

begins_elsewhere :
    (i : Info) (js : List Info) (low high : ℕ)
    → Fits i
    → AllFit js
    → ApartFrom i js
    → low ≤ high
    → any_contains js low high ≡ true
    → contains i low low ≡ false
begins_elsewhere i js low high f fs a le h = elim (Bool-cases (contains i low low)) [
  | inl k ↦ cc (h, none_contains i js low high f fs a le k)
  | inr k ↦ k
]

-- In a map whose entries do not overlap, an access that some entry holds whole is converted by an
-- entry of the map that holds it whole, though the conversion looks at its first byte alone.
pub any_contains-Serves :
    (l : List Info) (address size : ℕ)
    → AllFit l
    → NoOverlap l
    → 1 ≤ size
    → address + size ≤ 2 ^ 64
    → any_contains l address (last_address address size) ≡ true
    → (i : Info) × IsEntry i l × Serves l address size i
unfolding any_contains convert_to_location
any_contains-Serves [] address size f n one wrap h = cc
any_contains-Serves (i ∷ l) address size f n one wrap h =
    elim (Bool-cases (contains i address (last_address address size))) [
      | inl k ↦
          let bounds = contains_bounds i address _ f.0 k in
          let here = contains_first i address _ f.0 (omega arith) k in
          (
            i,
            inl refl,
            record {
              converts = rw (here, convert_to_location);
              starts = bounds.0;
              ends = omega arith;
            },
          )
      | inr k ↦
          let rest = rw (k, any_contains) at h in
          let (j, entry, s) = any_contains-Serves l address size f.1 n.1 one wrap rest in
          let elsewhere =
            begins_elsewhere i l address (last_address address size) f.0 f.1 n.0 (omega arith)
              rest in
          (
            j,
            inr entry,
            record {
              converts = rw (elsewhere, convert_to_location) s.converts;
              starts = s.starts;
              ends = s.ends;
            },
          )
    ]
