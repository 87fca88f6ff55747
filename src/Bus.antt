-- ===== src/Bus.antt =====
-- src/rafi-emu/bus/Bus.h and Bus.cpp: the address map. Memories stay in a store, and an entry of
-- the map names one by its place there, as `pMemory` does; so two entries may share a memory. The
-- devices behind `IIo` are a parameter, a type with its two operations.
pub mod Map
pub mod Access
use rafi_emu.Common.{
  ℕ, zero, suc, ◌+◌, ◌-◌, ◌%◌, ◌^◌, Bool, true, false, ltb, leb, ◌&&◌, if◌then◌else◌, List, [], ◌∷◌,
  ◌++◌, length, get_elem?, set, Option, none, some, Outcome, ok, throws, undefined, ◌>>=◌,
}
use rafi_emu.Word.{u32, u64, sext32}
use rafi_emu.Bytes.{le_value, le_bytes}
use rafi_emu.Memory.{Memory}
use rafi_emu.Memory

-- `io::IIo`: reading may change a device too.
pub record Io (D : Type 0) : Type 0 where
  pub read : D → ℕ → ℕ → Outcome (List ℕ × D)
  pub write : D → List ℕ → ℕ → Outcome D

-- `MemoryInfo` and `IoInfo`; `target` is the place of the object in its store.
pub record Info : Type 0 where
  pub target : ℕ
  pub address : ℕ
  pub size : ℕ

-- `MemoryLocation` and `IoLocation`.
pub record Location : Type 0 where
  pub target : ℕ
  pub offset : ℕ

pub record Bus (D : Type 0) : Type 0 where
  pub memories : List Memory
  pub devices : List D
  pub memory_list : List Info
  pub io_list : List Info

abbrev or_undefined {ℓ} : {A : Type ℓ} → Option A → Outcome A
or_undefined none = undefined
or_undefined (some a) = ok a

-- `location.address <= low && high < location.address + location.size`, the sum at 64 bits.
unfoldable pub contains : Info → ℕ → ℕ → Bool
contains i low high = leb i.address low && ltb high (u64 (i.address + i.size))

-- The loop of `IsMemoryAddress` and of `IsIoAddress`.
unfoldable pub any_contains : List Info → ℕ → ℕ → Bool
any_contains [] low high = false
any_contains (i ∷ is) low high = elim (contains i low high) [
  | true ↦ true
  | false ↦ any_contains is low high
]

-- `address + accessSize - 1`, at 64 bits.
abbrev pub last_address : ℕ → ℕ → ℕ
last_address address access_size = u64 (address + access_size + (2 ^ 64 - 1))

-- The loop of `ConvertToMemoryLocation` and of `ConvertToIoLocation`: the first entry that holds
-- the address. The offset is an `int`, which the callers widen to 64 bits again.
unfoldable pub convert_to_location : List Info → ℕ → Outcome Location
convert_to_location [] address = throws
convert_to_location (i ∷ is) address = elim (contains i address address) [
  | true ↦ ok (record { target = i.target; offset = sext32 (u32 (address - i.address)) })
  | false ↦ convert_to_location is address
]

module _ {D : Type 0} where
  unfoldable pub register_memory : Bus D → Info → Bus D
  register_memory b i = record b { memory_list = b.memory_list ++ i ∷ [] }

  unfoldable pub register_io : Bus D → Info → Bus D
  register_io b i = record b { io_list = b.io_list ++ i ∷ [] }

  unfoldable pub is_memory_address : Bus D → ℕ → ℕ → Bool
  is_memory_address b address access_size =
      any_contains b.memory_list address (last_address address access_size)

  unfoldable pub is_io_address : Bus D → ℕ → ℕ → Bool
  is_io_address b address access_size =
      any_contains b.io_list address (last_address address access_size)

  unfoldable pub is_valid_address : Bus D → ℕ → ℕ → Bool
  unfolding is_memory_address is_io_address
  is_valid_address b address access_size =
      is_memory_address b address access_size && is_io_address b address access_size

  -- The first branch of `Read` and of `Write`.
  read_memory : Bus D → ℕ → ℕ → Outcome (List ℕ × Bus D)
  read_memory b size address = do
    l ← convert_to_location b.memory_list address
    m ← or_undefined (get_elem? b.memories l.target)
    bytes ← Memory.read m size l.offset
    ok (bytes, b)

  write_memory : Bus D → List ℕ → ℕ → Outcome (Bus D)
  write_memory b bytes address = do
    l ← convert_to_location b.memory_list address
    m ← or_undefined (get_elem? b.memories l.target)
    n ← Memory.write m bytes l.offset
    ok (record b { memories = set b.memories l.target n })

module _ {D : Type 0} ⦃io : Io D⦄ where
  read_io : Bus D → ℕ → ℕ → Outcome (List ℕ × Bus D)
  read_io b size address = do
    l ← convert_to_location b.io_list address
    d ← or_undefined (get_elem? b.devices l.target)
    (bytes, e) ← io.read d size l.offset
    ok (bytes, record b { devices = set b.devices l.target e })

  write_io : Bus D → List ℕ → ℕ → Outcome (Bus D)
  write_io b bytes address = do
    l ← convert_to_location b.io_list address
    d ← or_undefined (get_elem? b.devices l.target)
    e ← io.write d bytes l.offset
    ok (record b { devices = set b.devices l.target e })

  -- `Read(pOutBuffer, size, address)`. A device is chosen by the first byte alone.
  unfoldable pub read : Bus D → ℕ → ℕ → Outcome (List ℕ × Bus D)
  unfolding read_memory read_io
  read b size address =
      if is_memory_address b address size
      then read_memory b size address
      else if is_io_address b address 1
      then read_io b size address
      else throws

  -- `Write(pBuffer, size, address)`. Memories and devices are both chosen by the first byte alone.
  unfoldable pub write : Bus D → List ℕ → ℕ → Outcome (Bus D)
  unfolding write_memory write_io
  write b bytes address =
      if is_memory_address b address 1
      then write_memory b bytes address
      else if is_io_address b address 1
      then write_io b bytes address
      else throws

  -- `ReadUInt8` to `ReadUInt64`, by the number of bytes.
  unfoldable pub read_uint : ℕ → Bus D → ℕ → Outcome (ℕ × Bus D)
  unfolding read
  read_uint size b address = do (bytes, b) ← read b size address; ok (le_value bytes, b)

  -- `WriteUInt8` to `WriteUInt64`, by the number of bytes.
  unfoldable pub write_uint : ℕ → Bus D → ℕ → ℕ → Outcome (Bus D)
  unfolding write
  write_uint size b address value = write b (le_bytes size value) address
