-- ===== src/InterruptController/Pending.antt =====
-- What `UpdateCsr` leaves in the interrupt-pending register.
use rafi_emu.Common.{
  ◌-◌, ℕ, ◌*◌, ◌/◌, ◌%◌, ◌^◌, ◌<◌, ◌≡◌, refl, ◌∙◌, arith, Bool, true, false, ◌==◌, ok,
}
use rafi_emu.BitField.{Member, get_member, set_member, mask}
use rafi_emu.BitField.Laws.{
  field, Covers, Misses, get_member-field, set_member_covered, set_member_missed,
}
use rafi_emu.Word.{u32}
use rafi_emu.RvCsr.Ip
use rafi_emu.Csr.{Csr, write_interrupt_pending}
use rafi_emu.Csr.Read.{read_u32}
use rafi_emu.InterruptController.{Sources, update_csr, update_timer, update_external, clear_three}

update_timer-idle : (m s p : ℕ) → update_timer false m s p ≡ clear_three Ip.mtip Ip.stip Ip.utip p
unfolding update_timer
update_timer-idle m s p = refl

update_external-idle :
    (m s p : ℕ) → update_external false m s p ≡ clear_three Ip.meip Ip.seip Ip.ueip p
unfolding update_external
update_external-idle m s p = refl

update_timer-machine :
    (m s p : ℕ)
    → m < 2 ^ 7
    → update_timer true m s p ≡ set_member 64 Ip.mtip (clear_three Ip.mtip Ip.stip Ip.utip p) 1
unfolding update_timer
update_timer-machine m s p h = let low : (m / 2 ^ 7 == 0) ≡ true = ground arith in rw low

update_external-machine :
    (m s p : ℕ)
    → m < 2 ^ 7
    → update_external true m s p ≡ set_member 64 Ip.meip (clear_three Ip.meip Ip.seip Ip.ueip p) 1
unfolding update_external
update_external-machine m s p h = let low : (m / 2 ^ 11 == 0) ≡ true = ground arith in rw low

-- The register after `UpdateCsr`, by the two blocks.
abbrev pub pending_after : Bool → Csr → ℕ
pending_after timer c =
    let m = u32 c.machine_interrupt_delegation in
    let s = u32 c.supervisor_interrupt_delegation in
    update_external timer m s (update_timer timer m s c.interrupt_pending)

pub update_csr-pending_after :
    (sources : Sources) (c : Csr) (timer : Bool)
    → sources.timer ≡ timer
    → update_csr sources c ≡ ok (record c { interrupt_pending = pending_after timer c })
unfolding update_csr read_u32 write_interrupt_pending
update_csr-pending_after sources c timer h = cc

clear_three_first :
    (m s u : Member) (p : ℕ)
    → (Covers m (mask m) × Misses m (2 ^ 64 - 1 - mask m))
    → (Misses m (mask s) × Covers m (2 ^ 64 - 1 - mask s))
    → (Misses m (mask u) × Covers m (2 ^ 64 - 1 - mask u))
    → field m (clear_three m s u p) ≡ field m (0 * 2 ^ m.lsb % 2 ^ 64)
clear_three_first m s u p hm hs hu =
    set_member_missed 64 m u _ 0 hu.0 hu.1
    ∙ set_member_missed 64 m s _ 0 hs.0 hs.1
    ∙ set_member_covered 64 m m p 0 hm.0 hm.1

clear_three_other :
    (f m s u : Member) (p : ℕ)
    → (Misses f (mask m) × Covers f (2 ^ 64 - 1 - mask m))
    → (Misses f (mask s) × Covers f (2 ^ 64 - 1 - mask s))
    → (Misses f (mask u) × Covers f (2 ^ 64 - 1 - mask u))
    → field f (clear_three m s u p) ≡ field f p
clear_three_other f m s u p hm hs hu =
    set_member_missed 64 f u _ 0 hu.0 hu.1
    ∙ set_member_missed 64 f s _ 0 hs.0 hs.1
    ∙ set_member_missed 64 f m p 0 hm.0 hm.1

-- While the timer source does not request, MTIP and MEIP read 0 after the update, also when the
-- external source requests.
pub update_csr-idle :
    (sources : Sources) (c : Csr)
    → sources.timer ≡ false
    → (d : Csr) × (update_csr sources c ≡ ok d)
      × (get_member Ip.mtip d.interrupt_pending ≡ 0)
      × (get_member Ip.meip d.interrupt_pending ≡ 0)
update_csr-idle sources c h = (
  record c { interrupt_pending = pending_after false c },
  update_csr-pending_after sources c false h,
  rw (get_member-field Ip.mtip, update_external-idle)
      (clear_three_other Ip.mtip Ip.meip Ip.seip Ip.ueip _ (refl, refl) (refl, refl) (refl, refl)
        ∙ rw update_timer-idle
            (clear_three_first Ip.mtip Ip.stip Ip.utip _ (refl, refl) (refl, refl) (refl, refl))),
  rw (get_member-field Ip.meip, update_external-idle)
      (clear_three_first Ip.meip Ip.seip Ip.ueip _ (refl, refl) (refl, refl) (refl, refl)),
)

-- While the timer source requests and no interrupt of code 7 or more is delegated, the update sets
-- MTIP, and MEIP as well, also when the external source does not request.
pub update_csr-timer :
    (sources : Sources) (c : Csr)
    → sources.timer ≡ true
    → u32 c.machine_interrupt_delegation < 2 ^ 7
    → (d : Csr) × (update_csr sources c ≡ ok d)
      × (get_member Ip.mtip d.interrupt_pending ≡ 1)
      × (get_member Ip.meip d.interrupt_pending ≡ 1)
update_csr-timer sources c h k = (
  record c { interrupt_pending = pending_after true c },
  update_csr-pending_after sources c true h,
  rw (get_member-field Ip.mtip, update_external-machine _ _ _ k)
      (set_member_missed 64 Ip.mtip Ip.meip _ 1 refl refl
        ∙ clear_three_other Ip.mtip Ip.meip Ip.seip Ip.ueip _ (refl, refl) (refl, refl) (refl, refl)
        ∙ rw (update_timer-machine _ _ _ k) (set_member_covered 64 Ip.mtip Ip.mtip _ 1 refl refl)),
  rw (get_member-field Ip.meip, update_external-machine _ _ _ k)
      (set_member_covered 64 Ip.meip Ip.meip _ 1 refl refl),
)
