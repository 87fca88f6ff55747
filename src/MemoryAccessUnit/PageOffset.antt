-- ===== src/MemoryAccessUnit/PageOffset.antt =====
-- The low twelve bits of a translated address.
use rafi_emu.Common.{ℕ, ◌%◌, ◌^◌, ◌-◌, ◌≡◌, refl, sym, ◌∙◌, arith, ap}
use rafi_emu.Word.{u32, zero_extend}
use rafi_emu.BitField.{Member, bits, get_member, set_member}
use rafi_emu.BitField.Laws.{field, field-bit_and_covered, set_member_covered, get_member-field}

abbrev pub KeepsOffset : ℕ → ℕ → Type 0
KeepsOffset addr p = p % 4096 ≡ addr % 4096

offset : Member
offset = bits 11 0

field-offset : (v : ℕ) → field offset v ≡ v % 4096
unfolding offset
field-offset v = omega arith

set_member-offset : (v x : ℕ) → set_member 64 offset v x % 4096 ≡ x % 4096
unfolding offset
set_member-offset v x =
    sym (field-offset (set_member 64 offset v x))
    ∙ set_member_covered 64 offset offset v x refl refl
    ∙ omega arith

get_member-offset : (v : ℕ) → get_member offset v ≡ v % 4096
get_member-offset v = get_member-field offset v ∙ field-offset v

zero_extend-offset : (k v : ℕ) → field offset (2 ^ k - 1) ≡ 4095 → zero_extend k v % 4096 ≡ v % 4096
unfolding zero_extend offset
zero_extend-offset k v h =
    sym (field-offset _) ∙ field-bit_and_covered offset v (2 ^ k - 1) h ∙ field-offset v

offset_kept :
    (k v x : ℕ)
    → field offset (2 ^ k - 1) ≡ 4095
    → zero_extend k (set_member 64 (bits 11 0) v (get_member (bits 11 0) x)) % 4096 ≡ x % 4096
unfolding offset
offset_kept k v x h =
    zero_extend-offset k _ h
    ∙ set_member-offset v _
    ∙ ap (λ y. y % 4096) (get_member-offset x)
    ∙ omega arith

pub offset_kept_sv32 :
    (v addr : ℕ)
    → KeepsOffset addr
        (zero_extend 32 (set_member 64 (bits 11 0) v (get_member (bits 11 0) (u32 addr))))
unfolding offset
offset_kept_sv32 v addr = offset_kept 32 v (u32 addr) refl ∙ omega arith

pub offset_kept_sv39 :
    (v addr : ℕ)
    → KeepsOffset addr (zero_extend 39 (set_member 64 (bits 11 0) v (get_member (bits 11 0) addr)))
unfolding offset
offset_kept_sv39 v addr = offset_kept 39 v addr refl

pub offset_kept_sv48 :
    (v addr : ℕ)
    → KeepsOffset addr (zero_extend 48 (set_member 64 (bits 11 0) v (get_member (bits 11 0) addr)))
unfolding offset
offset_kept_sv48 v addr = offset_kept 48 v addr refl
