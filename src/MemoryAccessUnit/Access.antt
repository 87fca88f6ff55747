-- ===== src/MemoryAccessUnit/Access.antt =====
-- What `CheckTrap` promises for `Translate`, and stores and loads without translation
-- (src/rafi-emu/cpu/MemoryAccessUnit.cpp).
use rafi_emu.Common.{ℕ, ◌+◌, ◌^◌, ◌≤◌, ◌<◌, true, none, ok, ◌≡◌, refl, arith}
use rafi_emu.BitField.{get_member}
use rafi_emu.Bits.Fields.{bit_and_mask}
use rafi_emu.Word.{zero_extend}
use rafi_emu.RvTypes.{
  Xlen, xlen32, xlen64, xlen128, AddressTranslationMode, bare, sv32, sv39, sv48, sv57, sv64, other,
  MemoryAccessType, load, store,
}
use rafi_emu.RvPageTable.VirtualSv48
use rafi_emu.Csr.{Csr}
use rafi_emu.Bus.{Bus, Info, Io, is_memory_address, read_uint, write_uint}
use rafi_emu.Bus.Map.{AllFit, Serves}
use rafi_emu.Bus.Access.{MapsRam, read_uint-write_uint}
use rafi_emu.Memory.{Ram}
use rafi_emu.MemoryAccessUnit.{
  M, EntryType, pure, ◌>>◌, is_store, update_entry, Translation, address,
}
use rafi_emu.MemoryAccessUnit.Walk.{Leaf}
use rafi_emu.MemoryAccessUnit.PageOffset.{KeepsOffset}
use rafi_emu.MemoryAccessUnit.Translate.{
  MemoryAccessUnit, add_event, get_address_translation_mode, bare_address, check_trap,
  check_trap_in, translate, translate_in, load_uint, store_uint,
}
use rafi_emu.MemoryAccessUnit.WalkSv32.{check_trap_sv32-translate_sv32}
use rafi_emu.MemoryAccessUnit.WalkSv32 as WalkSv32
use rafi_emu.MemoryAccessUnit.Sv32 as Sv32
use rafi_emu.MemoryAccessUnit.WalkSv39.{check_trap_sv39-translate_sv39}
use rafi_emu.MemoryAccessUnit.WalkSv39 as WalkSv39
use rafi_emu.MemoryAccessUnit.Sv39 as Sv39
use rafi_emu.MemoryAccessUnit.WalkSv48.{check_trap_sv48-translate_sv48}
use rafi_emu.MemoryAccessUnit.WalkSv48 as WalkSv48
use rafi_emu.MemoryAccessUnit.Sv48 as Sv48

bare_address-KeepsOffset : (x : Xlen) (addr : ℕ) → KeepsOffset addr (bare_address x addr)
unfolding bare_address zero_extend
bare_address-KeepsOffset xlen32 addr = rw (bit_and_mask 32 addr) (omega arith)
bare_address-KeepsOffset xlen64 addr = refl
bare_address-KeepsOffset xlen128 addr = refl

module _ {D : Type 0} ⦃io : Io D⦄ where
  -- A translation of `addr` that gives `p`: without translation at once, from the bus `b`; and in a
  -- paged mode after the update of the leaf `l` that the tables have for `addr`, from the bus `d` on
  -- which looking for it ends. `Continues` is the second, and `Translates` the two by the mode.
  abbrev pub Continues :
      EntryType
      → (ℕ → ℕ → ℕ)
      → M D Leaf
      → MemoryAccessType
      → M D Translation
      → Bus D
      → Bus D
      → ℕ
      → Type 0
  Continues t physical find access translated b d p =
      (l : Leaf) × (find b ≡ ok (l, d))
      × (p ≡ physical l.depth l.entry)
      × (translated b ≡ (update_entry t l.entry_address (is_store access) >> pure (address p)) d)

  abbrev pub Translates :
      AddressTranslationMode
      → Xlen
      → Csr
      → MemoryAccessType
      → ℕ
      → M D Translation
      → Bus D
      → Bus D
      → ℕ
      → Type 0
  Translates bare x c access addr translated b d p =
      (translated b ≡ ok (address p, b)) × (d ≡ b) × (p ≡ bare_address x addr)
  Translates sv32 x c access addr translated b d p =
      Continues Sv32.entry_type (WalkSv32.physical addr) (WalkSv32.find_sv32 c addr) access
        translated b d p
  Translates sv39 x c access addr translated b d p =
      Continues Sv39.entry_type (WalkSv39.physical addr) (WalkSv39.find_sv39 c addr) access
        translated b d p
  Translates sv48 x c access addr translated b d p =
      Continues Sv48.entry_type (WalkSv48.physical addr) (WalkSv48.find_sv48 c addr) access
        translated b d p
  Translates _ x c access addr translated b d p = ⊥

  in_mode :
      (mode : AddressTranslationMode) (x : Xlen) (c : Csr) (access : MemoryAccessType) (pc addr : ℕ)
      (b d : Bus D)
      → (mode ≡ sv48 → get_member VirtualSv48.vpn1 addr ≡ get_member VirtualSv48.vpn0 addr)
      → check_trap_in mode c access pc addr b ≡ ok (none, d)
      → (p : ℕ) × KeepsOffset addr p
        × Translates mode x c access addr (translate_in mode x c access addr pc) b d p
  unfolding check_trap_in translate_in
  in_mode bare x c access pc addr b d same found =
      (bare_address x addr, bare_address-KeepsOffset x addr, (refl, cc, refl))
  in_mode sv32 x c access pc addr b d same found =
      let (l, finds, done) = check_trap_sv32-translate_sv32 c access pc addr b d found in
      (_, WalkSv32.physical-offset addr l.depth l.entry, (l, finds, refl, done))
  in_mode sv39 x c access pc addr b d same found =
      let (l, finds, done) = check_trap_sv39-translate_sv39 c access pc addr b d found in
      (_, WalkSv39.physical-offset addr l.depth l.entry, (l, finds, refl, done))
  in_mode sv48 x c access pc addr b d same found =
      let (l, finds, done) =
        check_trap_sv48-translate_sv48 c access pc addr b d (same refl) found in
      (_, WalkSv48.physical-offset addr l.depth l.entry, (l, finds, refl, done))
  in_mode sv57 x c access pc addr b d same found = cc
  in_mode sv64 x c access pc addr b d same found = cc
  in_mode (other n) x c access pc addr b d same found = cc

  -- Where `CheckTrap` finds no trap, `Translate` of the same access returns none either. Without
  -- translation it returns the address at once. Under Sv32, Sv39 and Sv48 it continues, from the bus
  -- that the check left, with the update of the leaf that a walk of the page tables finds for `addr`,
  -- and then returns the address that joins the page number of the leaf, the parts of `addr` below
  -- its level and the offset, cut to 32, 39 or 48 bits. That address has the offset of `addr` in its
  -- page. Under Sv48 the
  -- fields VPN1 and VPN0 of `addr` have to be equal.
  pub check_trap-translate :
      (u : MemoryAccessUnit) (c : Csr) (access : MemoryAccessType) (mode : AddressTranslationMode)
      (pc addr : ℕ) (b d : Bus D)
      → get_address_translation_mode u.xlen c access ≡ ok mode
      → (mode ≡ sv48 → get_member VirtualSv48.vpn1 addr ≡ get_member VirtualSv48.vpn0 addr)
      → check_trap u c access pc addr b ≡ ok (none, d)
      → (p : ℕ) × KeepsOffset addr p
        × Translates mode u.xlen c access addr (translate u c access addr pc) b d p
  unfolding check_trap translate
  check_trap-translate u c access mode pc addr b d m same found =
      rw m (in_mode mode u.xlen c access pc addr b d same (rw m at found))

  translate-bare :
      (u : MemoryAccessUnit) (c : Csr) (access : MemoryAccessType) (addr pc : ℕ) (b : Bus D)
      → get_address_translation_mode u.xlen c access ≡ ok bare
      → translate u c access addr pc b ≡ ok (address (bare_address u.xlen addr), b)
  unfolding translate translate_in
  translate-bare u c access addr pc b m = rw m refl

  store_uint-address :
      (u : MemoryAccessUnit) (c : Csr) (size addr value p : ℕ) (b d : Bus D)
      → translate u c store addr 0 b ≡ ok (address p, b)
      → write_uint size b p value ≡ ok d
      → store_uint size u c addr value b ≡ ok (add_event u store size value addr p, d)
  unfolding store_uint
  store_uint-address u c size addr value p b d t w = cc

  load_uint-address :
      (u : MemoryAccessUnit) (c : Csr) (size addr value p : ℕ) (b : Bus D)
      → translate u c load addr 0 b ≡ ok (address p, b)
      → read_uint size b p ≡ ok (value, b)
      → load_uint size u c addr b ≡ ok ((value, add_event u load size value addr p), b)
  unfolding load_uint
  load_uint-address u c size addr value p b t r = cc

  -- Without translation, what a store wrote to a RAM is what a load then reads, and the two accesses
  -- are recorded in order.
  pub load_uint-store_uint :
      (u : MemoryAccessUnit) (c : Csr) (b : Bus D) (i : Info) (r : Ram) (size addr value : ℕ)
      → get_address_translation_mode u.xlen c store ≡ ok bare
      → get_address_translation_mode u.xlen c load ≡ ok bare
      → AllFit b.memory_list
      → 1 ≤ size
      → bare_address u.xlen addr + size ≤ 2 ^ 64
      → value < 256 ^ size
      → is_memory_address b (bare_address u.xlen addr) size ≡ true
      → Serves b.memory_list (bare_address u.xlen addr) size i
      → MapsRam b i r
      → (d : Bus D) × (store_uint size u c addr value b
          ≡ ok (add_event u store size value addr (bare_address u.xlen addr), d))
        × (load_uint size (add_event u store size value addr (bare_address u.xlen addr)) c addr d
            ≡ ok (
              (
                value,
                add_event
                    (add_event u store size value addr (bare_address u.xlen addr))
                    load
                    size
                    value
                    addr
                    (bare_address u.xlen addr),
              ),
              d,
            ))
  unfolding add_event
  load_uint-store_uint u c b i r size addr value ms ml fits one wrap v h s m =
      let p = bare_address u.xlen addr in
      let (d, wrote, reads) = read_uint-write_uint b i r size p value fits one wrap v h s m in
      let v = add_event u store size value addr p in
      (
        d,
        store_uint-address u c size addr value p b d (translate-bare u c store addr 0 b ms) wrote,
        load_uint-address v c size addr value p d (translate-bare v c load addr 0 d ml) reads,
      )
