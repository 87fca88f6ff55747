-- ===== src/Memory.antt =====
-- src/rafi-emu/mem/Ram.cpp and Rom.cpp, the two classes behind `IMemory`. `m_pBody` is the list of
-- its bytes. `LoadFile` reads a file of the host and is left out.
pub mod Laws
use rafi_emu.Common.{
  ℕ, ◌+◌, ◌-◌, ◌*◌, ◌%◌, ◌^◌, ltb, leb, if◌then◌else◌, List, ◌++◌, length, take, drop, replicate,
  Outcome, ok, throws, undefined, ◌>>=◌, ◌>>◌, throw_unless, assert,
}
use rafi_emu.Word.{u64}

pub record Ram : Type 0 where
  pub capacity : ℕ
  pub body : List ℕ

pub record Rom : Type 0 where
  pub body : List ℕ

pub data Memory : Type 0 where
  ram : Ram → Memory
  rom : Rom → Memory

abbrev pub rom_capacity : ℕ
rom_capacity = 4 * 1024

unfoldable pub new_ram : ℕ → Ram
new_ram capacity = record { capacity = capacity; body = replicate capacity 0 }

unfoldable pub new_rom : Rom
new_rom = record { body = replicate rom_capacity 0 }

unfoldable pub get_capacity : Memory → ℕ
get_capacity (ram m) = m.capacity
get_capacity (rom m) = rom_capacity

-- `memcpy(out, &body[address], size)`.
abbrev pub copy_out : List ℕ → ℕ → ℕ → Outcome (List ℕ)
copy_out body size address =
    if leb (address + size) (length body) then ok (take size (drop address body)) else undefined

-- `memcpy(&body[address], bytes, size)`.
abbrev pub copy_in : List ℕ → List ℕ → ℕ → Outcome (List ℕ)
copy_in body bytes address =
    if leb (address + length bytes) (length body)
    then ok (take address body ++ (bytes ++ drop (address + length bytes) body))
    else undefined

-- `Read` of each class. The sums wrap at 64 bits.
unfoldable pub read : Memory → ℕ → ℕ → Outcome (List ℕ)
read (ram m) size address = do
  assert (leb (u64 (address + size)) m.capacity)
  copy_out m.body size address
read (rom m) size address = do
  throw_unless (ltb (u64 (address + size + (2 ^ 64 - 1))) rom_capacity)
  copy_out m.body size address

unfoldable pub write : Memory → List ℕ → ℕ → Outcome Memory
write (ram m) bytes address = do
  assert (leb (u64 (address + length bytes)) m.capacity)
  body ← copy_in m.body bytes address
  ok (ram (record m { body = body }))
write (rom m) bytes address = throws
