-- ===== src/TrapProcessor/Status.antt =====
-- The fields of the status word that trap entry and trap return compute.
use rafi_emu.Common.{◌-◌, ◌^◌, ℕ, ◌%◌, ◌<◌, ◌≡◌, refl, ◌∙◌, arith}
use rafi_emu.BitField.{Member, mask, get_member, set_member}
use rafi_emu.BitField.Laws.{
  field, Misses, Covers, get_member-field, set_member_covered, set_member_missed,
}
use rafi_emu.RvCsr.Status
use rafi_emu.TrapProcessor.{machine_entry_status, supervisor_entry_status, machine_return_status}

pub machine_entry_fields :
    (s previous : ℕ)
    → previous < 4
    → (field Status.mpp (machine_entry_status s previous) ≡ previous)
      × (field Status.mpie (machine_entry_status s previous) ≡ field Status.mie s)
      × (field Status.mie (machine_entry_status s previous) ≡ 0)
unfolding machine_entry_status
machine_entry_fields s previous h =
    let s1 = set_member 64 Status.mpie s (get_member Status.mie s) in
    let s2 = set_member 64 Status.mie s1 0 in
    (
      set_member_covered 64 Status.mpp Status.mpp s2 previous refl refl ∙ omega arith,
      set_member_missed 64 Status.mpie Status.mpp s2 previous refl refl
          ∙ set_member_missed 64 Status.mpie Status.mie s1 0 refl refl
          ∙ set_member_covered 64 Status.mpie Status.mpie s _ refl refl
          ∙ omega (arith, get_member-field Status.mie s),
      set_member_missed 64 Status.mie Status.mpp s2 previous refl refl
          ∙ set_member_covered 64 Status.mie Status.mie s1 0 refl refl,
    )

-- The field `f` shares no bit with the field `m`.
pub record IsBeside (f m : Member) : Type 0 where
  pub missed : Misses f (mask m)
  pub covered : Covers f (2 ^ 64 - 1 - mask m)

pub machine_entry_others :
    (s previous : ℕ) (f : Member)
    → IsBeside f Status.mpp
    → IsBeside f Status.mpie
    → IsBeside f Status.mie
    → field f (machine_entry_status s previous) ≡ field f s
unfolding machine_entry_status
machine_entry_others s previous f p q r =
    let s1 = set_member 64 Status.mpie s (get_member Status.mie s) in
    let s2 = set_member 64 Status.mie s1 0 in
    set_member_missed 64 f Status.mpp s2 previous p.missed p.covered
    ∙ set_member_missed 64 f Status.mie s1 0 r.missed r.covered
    ∙ set_member_missed 64 f Status.mpie s _ q.missed q.covered

pub supervisor_entry_fields :
    (s previous : ℕ)
    → (field Status.spp (supervisor_entry_status s previous) ≡ previous % 2)
      × (field Status.spie (supervisor_entry_status s previous) ≡ field Status.sie s)
      × (field Status.sie (supervisor_entry_status s previous) ≡ 0)
unfolding supervisor_entry_status
supervisor_entry_fields s previous =
    let s1 = set_member 64 Status.spie s (get_member Status.sie s) in
    let s2 = set_member 64 Status.sie s1 0 in
    (
      set_member_covered 64 Status.spp Status.spp s2 previous refl refl ∙ omega arith,
      set_member_missed 64 Status.spie Status.spp s2 previous refl refl
          ∙ set_member_missed 64 Status.spie Status.sie s1 0 refl refl
          ∙ set_member_covered 64 Status.spie Status.spie s _ refl refl
          ∙ omega (arith, get_member-field Status.sie s),
      set_member_missed 64 Status.sie Status.spp s2 previous refl refl
          ∙ set_member_covered 64 Status.sie Status.sie s1 0 refl refl,
    )

pub machine_return_fields :
    (s : ℕ)
    → (field Status.mpp (machine_return_status s) ≡ 0)
      × (field Status.mie (machine_return_status s) ≡ field Status.mpie s)
      × (field Status.mpie (machine_return_status s) ≡ field Status.mpie s)
unfolding machine_return_status
machine_return_fields s =
    let s1 = set_member 64 Status.mpp s 0 in
    (
      set_member_missed 64 Status.mpp Status.mie s1 _ refl refl
          ∙ set_member_covered 64 Status.mpp Status.mpp s 0 refl refl,
      set_member_covered 64 Status.mie Status.mie s1 _ refl refl
          ∙ omega (arith, get_member-field Status.mpie s),
      set_member_missed 64 Status.mpie Status.mie s1 _ refl refl
          ∙ set_member_missed 64 Status.mpie Status.mpp s 0 refl refl,
    )
