-- ===== src/MemoryAccessUnit/Translate.antt =====
-- The public methods of src/rafi-emu/cpu/MemoryAccessUnit.cpp: the choice of a translation mode, `CheckTrap`
-- and `Translate`, the accesses through them, and the events that record the accesses.
use rafi_emu.Common.{
  ℕ, ◌==◌, if◌then◌else◌, Option, none, some, Outcome, ok, throws, undefined, List, [], ◌∷◌, ◌++◌,
  length, get_elem?,
}
use rafi_emu.Common as C
use rafi_emu.BitField.{get_member}
use rafi_emu.Word.{u32, zero_extend}
use rafi_emu.RvTypes.{
  Xlen, xlen32, xlen64, xlen128, AddressTranslationMode, bare, sv32, sv39, sv48, sv57, sv64, other,
  address_translation_mode, MemoryAccessType, instruction, load, store, PrivilegeLevel, user,
  supervisor, reserved, machine,
}
use rafi_emu.RvCsr.Satp
use rafi_emu.Trap.{Trap}
use rafi_emu.Csr.{Csr}
use rafi_emu.Bus.{Io, read_uint, write_uint}
use rafi_emu.MemoryAccessUnit.{
  M, pure, ◌>>=◌, ◌>>◌, lift, effective_privilege_level, Translation, fault, address,
}
use rafi_emu.MemoryAccessUnit.Sv32.{check_trap_sv32, translate_sv32}
use rafi_emu.MemoryAccessUnit.Sv39.{check_trap_sv39, translate_sv39}
use rafi_emu.MemoryAccessUnit.Sv48.{check_trap_sv48, translate_sv48}

pub record MemoryAccessEvent : Type 0 where
  pub access : MemoryAccessType
  pub size : ℕ
  pub value : ℕ
  pub virtual_address : ℕ
  pub physical_address : ℕ

-- The unit itself. The bus and the registers that it points to are arguments.
pub record MemoryAccessUnit : Type 0 where
  pub xlen : Xlen
  pub events : List MemoryAccessEvent

unfoldable pub add_event : MemoryAccessUnit → MemoryAccessType → ℕ → ℕ → ℕ → ℕ → MemoryAccessUnit
add_event u access size value vaddr paddr = record u {
  events =
      u.events
      ++ (record {
        access = access;
        size = u32 size;
        value = value;
        virtual_address = vaddr;
        physical_address = paddr;
      })
        ∷ [];
}

unfoldable pub clear_event : MemoryAccessUnit → MemoryAccessUnit
clear_event u = record u { events = [] }

-- `CopyEvent`: an index out of range has no meaning.
unfoldable pub copy_event : MemoryAccessUnit → ℕ → Outcome MemoryAccessEvent
copy_event u index = elim (get_elem? u.events index) [ some e ↦ ok e | none ↦ undefined ]

unfoldable pub get_event_count : MemoryAccessUnit → ℕ
get_event_count u = length u.events

-- The mode that a level other than machine takes from `satp`.
unfoldable pub mode_of_satp : Xlen → ℕ → Outcome AddressTranslationMode
mode_of_satp xlen32 satp = ok (address_translation_mode (get_member Satp.mode_rv32 satp))
mode_of_satp xlen64 satp = ok (address_translation_mode (get_member Satp.mode_rv64 satp))
mode_of_satp xlen128 satp = throws

unfoldable pub mode_at : Xlen → ℕ → PrivilegeLevel → Outcome AddressTranslationMode
mode_at x satp machine = ok bare
mode_at x satp user = mode_of_satp x satp
mode_at x satp supervisor = mode_of_satp x satp
mode_at x satp reserved = mode_of_satp x satp

-- `GetAddresssTranslationMode`.
unfoldable pub get_address_translation_mode :
    Xlen → Csr → MemoryAccessType → Outcome AddressTranslationMode
unfolding mode_at
get_address_translation_mode x c access =
    C.◌>>=◌ (effective_privilege_level c access)
      (mode_at x c.supervisor_address_translation_protection)

-- The physical address of a bare access.
unfoldable pub bare_address : Xlen → ℕ → ℕ
bare_address xlen32 addr = zero_extend 32 addr
bare_address xlen64 addr = addr
bare_address xlen128 addr = addr

-- A load or a store drops the trap of `Translate`, after which its `paddr` was never written.
abbrev pub paddr_of : Translation → Outcome ℕ
paddr_of (fault t) = undefined
paddr_of (address p) = ok p

module _ {D : Type 0} ⦃io : Io D⦄ where
  unfoldable pub check_trap_in :
      AddressTranslationMode → Csr → MemoryAccessType → ℕ → ℕ → M D (Option Trap)
  check_trap_in bare c access pc addr = pure none
  check_trap_in sv32 c access pc addr = check_trap_sv32 c access pc addr
  check_trap_in sv39 c access pc addr = check_trap_sv39 c access pc addr
  check_trap_in sv48 c access pc addr = check_trap_sv48 c access pc addr
  check_trap_in sv57 c access pc addr = lift throws
  check_trap_in sv64 c access pc addr = lift throws
  check_trap_in (other n) c access pc addr = lift throws

  unfoldable pub check_trap : MemoryAccessUnit → Csr → MemoryAccessType → ℕ → ℕ → M D (Option Trap)
  unfolding check_trap_in
  check_trap u c access pc addr = do
    mode ← lift (get_address_translation_mode u.xlen c access)
    check_trap_in mode c access pc addr

  unfoldable pub translate_in :
      AddressTranslationMode → Xlen → Csr → MemoryAccessType → ℕ → ℕ → M D Translation
  unfolding bare_address
  translate_in bare x c access addr pc = pure (address (bare_address x addr))
  translate_in sv32 x c access addr pc = translate_sv32 c access addr pc
  translate_in sv39 x c access addr pc = translate_sv39 c access addr pc
  translate_in sv48 x c access addr pc = translate_sv48 c access addr pc
  translate_in sv57 x c access addr pc = lift throws
  translate_in sv64 x c access addr pc = lift throws
  translate_in (other n) x c access addr pc = lift throws

  unfoldable pub translate : MemoryAccessUnit → Csr → MemoryAccessType → ℕ → ℕ → M D Translation
  unfolding translate_in
  translate u c access addr pc = do
    mode ← lift (get_address_translation_mode u.xlen c access)
    translate_in mode u.xlen c access addr pc

  -- `LoadUInt8` to `LoadUInt64`, by the number of bytes.
  unfoldable pub load_uint : ℕ → MemoryAccessUnit → Csr → ℕ → M D (ℕ × MemoryAccessUnit)
  load_uint size u c addr = do
    translation ← translate u c load addr 0
    paddr ← lift (paddr_of translation)
    value ← (λ b. read_uint size b paddr)
    pure (value, add_event u load size value addr paddr)

  -- `StoreUInt8` to `StoreUInt64`, by the number of bytes.
  unfoldable pub store_uint : ℕ → MemoryAccessUnit → Csr → ℕ → ℕ → M D MemoryAccessUnit
  store_uint size u c addr value = do
    translation ← translate u c store addr 0
    paddr ← lift (paddr_of translation)
    (λ b. C.◌>>=◌ (write_uint size b paddr value) (λ b. ok (tt, b)))
        >> pure (add_event u store size value addr paddr)

  -- `FetchUInt16` and `FetchUInt32`, by the number of bytes.
  unfoldable pub fetch_uint : ℕ → MemoryAccessUnit → ℕ → ℕ → M D (ℕ × MemoryAccessUnit)
  fetch_uint size u vaddr paddr = do
    value ← (λ b. read_uint size b paddr)
    pure (value, add_event u instruction size value vaddr paddr)
