-- ===== src/Bus/Access.antt =====
-- Reading back through the bus what was written to a RAM.
use rafi_emu.Common.{
  ℕ, ◌+◌, ◌-◌, ◌^◌, ◌≤◌, ◌<◌, ◌≡◌, ap, ◌∙◌, arith, true, List, length, get_elem?, set,
  get_elem?-set_self, some, ok, suc, zero, [], ◌∷◌,
}
use rafi_emu.Word.{u32, sext32}
use rafi_emu.Bytes.{le_value, le_bytes, length-le_bytes, le_value-le_bytes}
use rafi_emu.Memory.{Ram, Memory, ram}
use rafi_emu.Memory
use rafi_emu.Memory.Laws.{IsWhole, read-write}
use rafi_emu.Bus.{Io, Info, Bus, convert_to_location, is_memory_address, read_uint, write_uint}
use rafi_emu.Bus.Map.{AllFit, Serves, any_contains-first}

-- The entry stands for a whole RAM of the store that is no smaller than the entry, and small enough
-- for an `int` offset.
pub record MapsRam {D : Type 0} (b : Bus D) (i : Info) (r : Ram) : Type 0 where
  pub stored : get_elem? b.memories i.target ≡ some (ram r)
  pub whole : IsWhole r
  pub covered : i.size ≤ r.capacity
  pub narrow : i.size ≤ 2 ^ 31

below-length {ℓ} :
    {A : Type ℓ} (xs : List A) (i : ℕ) (a : A) → get_elem? xs i ≡ some a → i < length xs
below-length [] i a h = cc
below-length (x ∷ xs) zero a h = omega arith
below-length (x ∷ xs) (suc i) a h = omega (arith, below-length xs i a h)

offset_kept : (n : ℕ) → n < 2 ^ 31 → sext32 (u32 n) ≡ n
offset_kept n h = ground arith

module _ {D : Type 0} ⦃io : Io D⦄ where
  write_uint-served :
      (b : Bus D) (size address value offset target : ℕ) (m n : Memory)
      → is_memory_address b address 1 ≡ true
      → convert_to_location b.memory_list address ≡ ok (record { target = target; offset = offset })
      → get_elem? b.memories target ≡ some m
      → Memory.write m (le_bytes size value) offset ≡ ok n
      → write_uint size b address value ≡ ok (record b { memories = set b.memories target n })
  unfolding write_uint
  write_uint-served b size address value offset target m n h l g w = cc

  read_uint-served :
      (b : Bus D) (size address offset target : ℕ) (m : Memory) (bytes : List ℕ)
      → is_memory_address b address size ≡ true
      → convert_to_location b.memory_list address ≡ ok (record { target = target; offset = offset })
      → get_elem? b.memories target ≡ some m
      → Memory.read m size offset ≡ ok bytes
      → read_uint size b address ≡ ok (le_value bytes, b)
  unfolding read_uint
  read_uint-served b size address offset target m bytes h l g r = cc

  -- What is written to a RAM through the bus is read back: where an entry of the map serves the
  -- access and stands for a whole RAM, both calls succeed, and the second returns the value.
  pub read_uint-write_uint :
      (b : Bus D) (i : Info) (r : Ram) (size address value : ℕ)
      → AllFit b.memory_list
      → 1 ≤ size
      → address + size ≤ 2 ^ 64
      → value < 256 ^ size
      → is_memory_address b address size ≡ true
      → Serves b.memory_list address size i
      → MapsRam b i r
      → (c : Bus D) × (write_uint size b address value ≡ ok c)
        × (read_uint size c address ≡ ok (value, c))
  unfolding is_memory_address
  read_uint-write_uint b i r size address value fits one wrap v h s m =
      let offset = address - i.address in
      let len = length-le_bytes size value in
      let (n, written, whole, back, beside) =
        read-write r (le_bytes size value) offset m.whole
          (omega (arith, len, s.starts, s.ends, m.covered)) in
      let kept = offset_kept offset (omega (arith, s.starts, s.ends, m.narrow)) in
      let located = s.converts ∙ ap (λ o. ok (record { target = i.target; offset = o })) kept in
      let c = record b { memories = set b.memories i.target (ram n) } in
      let stored =
        get_elem?-set_self b.memories i.target (ram n)
          (below-length b.memories i.target (ram r) m.stored) in
      (
        c,
        write_uint-served b size address value offset i.target (ram r) (ram n)
            (any_contains-first b.memory_list address size fits one wrap h) located m.stored
            written,
        read_uint-served c size address offset i.target (ram n) (le_bytes size value) h located
              stored (rw len at back)
            ∙ ap (λ x. ok (x, c)) (le_value-le_bytes size value v),
      )
