-- ===== src/InterruptController/Request.antt =====
-- `Update` of src/rafi-emu/cpu/InterruptController.cpp as a whole: when it requests an interrupt, and which.
use rafi_emu.Common.{
  ℕ, ◌≤◌, ◌↔◌, ◌≡◌, ◌≢◌, refl, sym, ap, ◌∙◌, Bool, true, false, is_set, if◌then◌else◌, Option, none,
  some, ok,
}
use rafi_emu.BitField.{Member, get_member}
use rafi_emu.BitField.Laws.{get_member-field}
use rafi_emu.RvTypes.{xlen128, PrivilegeLevel, user, supervisor, reserved, machine, InterruptType}
use rafi_emu.RvCsr.Status
use rafi_emu.Csr.{Csr}
use rafi_emu.Csr.StatusView.{
  field-read_status, IsWritable, mie-IsWritable, sie-IsWritable, uie-IsWritable,
}
use rafi_emu.InterruptController.{
  Sources, InterruptController, Updated, update, find_interrupt, interrupts_enabled, request,
}
use rafi_emu.InterruptController.Priority.{
  is_active, rank, find_interrupt-first, find_interrupt-none_iff,
}
use rafi_emu.InterruptController.Pending.{pending_after, update_csr-pending_after}

-- The enable bit of a privilege level.
abbrev pub enable_bit : PrivilegeLevel → Member
enable_bit machine = Status.mie
enable_bit supervisor = Status.sie
enable_bit user = Status.uie
enable_bit reserved = Status.mie

enable_bit-IsWritable : (l : PrivilegeLevel) → IsWritable (enable_bit l)
enable_bit-IsWritable machine = mie-IsWritable
enable_bit-IsWritable supervisor = sie-IsWritable
enable_bit-IsWritable user = uie-IsWritable
enable_bit-IsWritable reserved = mie-IsWritable

abbrev pub is_enabled : Csr → Bool
is_enabled c = is_set (get_member (enable_bit c.privilege_level) c.status)

interrupts_enabled-bit :
    (l : PrivilegeLevel) (s : ℕ)
    → l ≢ reserved
    → interrupts_enabled l s ≡ ok (is_set (get_member (enable_bit l) s))
unfolding interrupts_enabled
interrupts_enabled-bit machine s h = refl
interrupts_enabled-bit supervisor s h = refl
interrupts_enabled-bit user s h = refl
interrupts_enabled-bit reserved s h = absurd (h refl)

-- The registers after `Update`.
abbrev pub updated_csr : Sources → Csr → Csr
updated_csr sources c = record c { interrupt_pending = pending_after sources.timer c }

abbrev found_by : Sources → Csr → Option InterruptType
found_by sources c =
    if is_enabled c
    then find_interrupt c.interrupt_enable (updated_csr sources c).interrupt_pending
    else none

enabled_after :
    (c d : Csr) (s : ℕ)
    → c.privilege_level ≢ reserved
    → get_member (enable_bit c.privilege_level) s
      ≡ get_member (enable_bit c.privilege_level) c.status
    → interrupts_enabled c.privilege_level s ≡ ok (is_enabled c)
enabled_after c d s h e = interrupts_enabled-bit c.privilege_level s h ∙ ap (λ v. ok (is_set v)) e

update-run :
    (sources : Sources) (i : InterruptController) (c : Csr)
    → c.xlen ≢ xlen128
    → c.privilege_level ≢ reserved
    → update sources i c
      ≡ ok (record { controller = request (found_by sources c) i; csr = updated_csr sources c })
unfolding update
update-run sources i c hx hl =
    let d = updated_csr sources c in
    let pending = update_csr-pending_after sources c sources.timer refl in
    let (s, read, fields) = field-read_status d hx in
    let same : get_member (enable_bit c.privilege_level) s
        ≡ get_member (enable_bit c.privilege_level) c.status =
      get_member-field _ s
      ∙ fields (enable_bit c.privilege_level) (enable_bit-IsWritable c.privilege_level)
      ∙ sym (get_member-field _ c.status) in
    let enabled = enabled_after c d s hl same in cc

-- An interrupt is requested exactly when interrupts are on and one is enabled and pending, and the
-- requested one comes first among those.
pub record Requests (enabled : Bool) (ie ip : ℕ) (g : InterruptController) : Type 0 where
  pub exactly :
      (g.is_requested ≡ true)
      ↔ ((enabled ≡ true) × (t : InterruptType) × (is_active ie ip t ≡ true))
  pub first :
      g.is_requested ≡ true
      → (is_active ie ip g.interrupt_type ≡ true)
        × ((u : InterruptType) → is_active ie ip u ≡ true → rank g.interrupt_type ≤ rank u)

request-Requests :
    (enabled : Bool) (o : Option InterruptType) (ie ip : ℕ) (i : InterruptController)
    → find_interrupt ie ip ≡ o
    → Requests enabled ie ip (request (if enabled then o else none) i)
unfolding request
request-Requests true (some t) ie ip i e =
    let found = find_interrupt-first ie ip t e in
    record { exactly = (λ _. (refl, t, found.0), λ _. refl); first = λ _. found }
request-Requests true none ie ip i e =
    let idle = (find_interrupt-none_iff ie ip).0 e in
    record { exactly = (λ h. cc, λ h. let (_, t, a) = h in cc (idle t, a)); first = λ h. cc }
request-Requests false o ie ip i e = record { exactly = (λ h. cc, λ h. cc (h.0)); first = λ h. cc }

-- On RV32 and RV64 and outside the reserved level, `Update` always completes. It requests an
-- interrupt exactly when the enable bit of the privilege level is set and an interrupt is enabled
-- and pending in the registers that it leaves; the requested one is the first of those in the order
-- of privilege level, then external, timer, software.
pub update-Requests :
    (sources : Sources) (i : InterruptController) (c : Csr)
    → c.xlen ≢ xlen128
    → c.privilege_level ≢ reserved
    → (r : Updated) × (update sources i c ≡ ok r)
      × Requests (is_enabled c) c.interrupt_enable r.csr.interrupt_pending r.controller
update-Requests sources i c hx hl = (
  record { controller = request (found_by sources c) i; csr = updated_csr sources c },
  update-run sources i c hx hl,
  request-Requests (is_enabled c) _ c.interrupt_enable (updated_csr sources c).interrupt_pending i
      refl,
)
