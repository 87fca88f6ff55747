-- ===== src/MemoryAccessUnit.antt =====
-- src/rafi-emu/cpu/MemoryAccessUnit.h and MemoryAccessUnit.cpp: address translation, and loads,
-- stores and fetches through it. Here are the checks of one entry and its update; Sv32, Sv39 and
-- Sv48 have a module each, `Translate` chooses among them and has the accesses. The registers are
-- an argument, the bus is the state of a monad.
pub mod Sv32
pub mod Sv39
pub mod Sv48
pub mod Walk
pub mod Translate
pub mod PageOffset
pub mod Access
pub mod WalkSv32
pub mod WalkSv39
pub mod WalkSv48
use rafi_emu.Common.{
  ℕ, ◌+◌, ◌*◌, ◌%◌, ◌^◌, Bool, true, false, ◌==◌, is_set, not, ◌&&◌, ◌||◌, if◌then◌else◌, Option,
  none, some, Outcome, ok, throws, undefined,
}
use rafi_emu.Common as C
use rafi_emu.BitField.{Member, get_member, set_member}
use rafi_emu.RvTypes.{
  Xlen, xlen32, xlen64, xlen128, MemoryAccessType, instruction, load, store, PrivilegeLevel, user,
  supervisor, reserved, machine, privilege_level_of,
}
use rafi_emu.RvCsr.Status
use rafi_emu.Trap.{
  Trap, make_instruction_page_fault_exception, make_load_page_fault_exception,
  make_store_page_fault_exception,
}
use rafi_emu.Csr.{Csr, read_status}
use rafi_emu.Bus.{Bus, Io, read_uint, write_uint}

-- A computation that may use the bus.
abbrev pub M : Type 0 → Type 0 → Type 0
M D A = Bus D → Outcome (A × Bus D)

abbrev pub pure : {D A : Type 0} → A → M D A
pure a b = ok (a, b)

infixl 5 ◌>>=◌ ◌>>◌
abbrev pub ◌>>=◌ : {D A B : Type 0} → M D A → (A → M D B) → M D B
◌>>=◌ m f b = elim (m b) [ ok r ↦ f r.0 r.1 | throws ↦ throws | undefined ↦ undefined ]

abbrev pub ◌>>◌ : {D B : Type 0} → M D (Unit {0}) → M D B → M D B
m >> k = m >>= λ _. k

-- A step that does not use the bus.
abbrev pub lift : {D A : Type 0} → Outcome A → M D A
lift o b = C.◌>>=◌ o (λ a. ok (a, b))

-- `RAFI_RETURN_IF_TRAP(trap); rest`, where `result` makes the trap the result.
abbrev pub return_if_trap : {D A : Type 0} → (Trap → A) → Option Trap → M D A → M D A
return_if_trap result (some t) rest = pure (result t)
return_if_trap result none rest = rest

-- The template argument `EntryType`: its size in bytes, and the fields that the templates use.
pub record EntryType : Type 0 where
  pub size : ℕ
  pub valid : Member
  pub readable : Member
  pub writable : Member
  pub executable : Member
  pub user_page : Member
  pub accessed : Member
  pub dirty : Member

-- `MakeTrap`.
unfoldable pub make_trap : MemoryAccessType → ℕ → ℕ → Trap
make_trap instruction pc addr = make_instruction_page_fault_exception pc addr
make_trap load pc addr = make_load_page_fault_exception pc addr
make_trap store pc addr = make_store_page_fault_exception pc addr

abbrev pub is_instruction : MemoryAccessType → Bool
is_instruction instruction = true
is_instruction load = false
is_instruction store = false

abbrev pub is_store : MemoryAccessType → Bool
is_store instruction = false
is_store load = false
is_store store = true

unfoldable pub effective_privilege_level : Csr → MemoryAccessType → Outcome PrivilegeLevel
effective_privilege_level c access = C.◌>>=◌ (read_status c) λ status. ok (
    if is_set (get_member Status.mprv status) && not (is_instruction access)
    then privilege_level_of (get_member Status.mpp status)
    else c.privilege_level)

-- `CheckTrapForEntry`.
unfoldable pub check_trap_for_entry : EntryType → ℕ → MemoryAccessType → ℕ → ℕ → Option Trap
check_trap_for_entry t entry access pc addr =
    if not (is_set (get_member t.valid entry))
      || (not (is_set (get_member t.readable entry)) && is_set (get_member t.writable entry))
    then some (make_trap access pc addr)
    else none

-- `IsLeafEntry`.
unfoldable pub is_leaf_entry : EntryType → ℕ → Bool
is_leaf_entry t entry =
    is_set (get_member t.readable entry) || is_set (get_member t.executable entry)

-- The `switch (privilegeLevel)` of `CheckTrapForLeafEntry`: true if it makes a trap.
unfoldable pub wrong_privilege : EntryType → ℕ → PrivilegeLevel → Bool → Bool
wrong_privilege t entry supervisor sum = not sum && is_set (get_member t.user_page entry)
wrong_privilege t entry user sum = not (is_set (get_member t.user_page entry))
wrong_privilege t entry reserved sum = false
wrong_privilege t entry machine sum = false

-- The `switch (accessType)` of `CheckTrapForLeafEntry`: true if it makes a trap.
unfoldable pub wrong_access : EntryType → ℕ → MemoryAccessType → Bool → Bool
wrong_access t entry instruction mxr = not (is_set (get_member t.executable entry))
wrong_access t entry load mxr =
    not (is_set (get_member t.readable entry))
    && not (mxr && is_set (get_member t.executable entry))
wrong_access t entry store mxr = not (is_set (get_member t.writable entry))

unfoldable pub check_trap_for_leaf_entry :
    Csr → EntryType → ℕ → MemoryAccessType → ℕ → ℕ → Outcome (Option Trap)
unfolding wrong_privilege wrong_access
check_trap_for_leaf_entry c t entry access pc addr =
    C.◌>>=◌ (effective_privilege_level c access) λ level. C.◌>>=◌ (read_status c) λ status. ok (
      if wrong_privilege t entry level (is_set (get_member Status.sum status))
        || wrong_access t entry access (is_set (get_member Status.mxr status))
      then some (make_trap access pc addr)
      else none)

module _ {D : Type 0} ⦃io : Io D⦄ where
  -- Reads a page table entry.
  abbrev pub read_entry : EntryType → ℕ → M D ℕ
  read_entry t entry_address b = read_uint t.size b entry_address

  -- `UpdateEntry`: sets the accessed bit of the entry in memory, and the dirty bit on a write.
  unfoldable pub update_entry : EntryType → ℕ → Bool → M D (Unit {0})
  update_entry t entry_address is_write = do
    entry ← read_entry t entry_address
    let seen = set_member (8 * t.size) t.accessed entry 1
    let entry = if is_write then set_member (8 * t.size) t.dirty seen 1 else seen
    λ b. C.◌>>=◌ (write_uint t.size b entry_address entry) (λ b. ok (tt, b))

-- What a translation returns: a trap, or the address that `pOutAddr` receives.
pub data Translation : Type 0 where
  fault : Trap → Translation
  address : ℕ → Translation
