-- ===== src/InterruptController/Priority.antt =====
-- The order in which `Update` of src/rafi-emu/cpu/InterruptController.cpp looks for an interrupt, and the order
-- of the architecture.
use rafi_emu.Common.{
  Option, if◌then◌else◌, ◌<◌, ◌↔◌, ◌⊎◌, inl, inr, Bool-cases, Option-cases, ℕ, ◌≤◌, ◌≡◌, arith,
  Bool, true, false, ◌&&◌, is_set, none, some,
}
use rafi_emu.BitField.{bit, get_member}
use rafi_emu.RvTypes.{
  InterruptType, user_software, supervisor_software, machine_software, user_timer, supervisor_timer,
  machine_timer, user_external, supervisor_external, machine_external, interrupt_code,
}
use rafi_emu.InterruptController.{find_interrupt}

-- The architecture's view: an interrupt has the bit of its code in both mie and mip.
pub is_active : ℕ → ℕ → InterruptType → Bool
is_active ie ip t =
    is_set (get_member (bit (interrupt_code t)) ie)
    && is_set (get_member (bit (interrupt_code t)) ip)

pub rank : InterruptType → ℕ
rank machine_external = 0
rank machine_timer = 1
rank machine_software = 2
rank supervisor_external = 3
rank supervisor_timer = 4
rank supervisor_software = 5
rank user_external = 6
rank user_timer = 7
rank user_software = 8

-- The rank of what is found; past every rank if nothing is.
abbrev found_rank : Option InterruptType → ℕ
found_rank none = 9
found_rank (some t) = rank t

-- Whatever is found is active: kept by each test in front.
abbrev OnlyActive : ℕ → ℕ → Option InterruptType → Type 0
OnlyActive ie ip o = (t : InterruptType) → o ≡ some t → is_active ie ip t ≡ true

OnlyActive-test :
    (ie ip : ℕ) (s : InterruptType) (rest : Option InterruptType)
    → OnlyActive ie ip rest
    → OnlyActive ie ip (if is_active ie ip s then some s else rest)
OnlyActive-test ie ip s rest h t e = elim (Bool-cases (is_active ie ip s)) [
  | inl a ↦ cc (a, rw a at e)
  | inr n ↦ h t (rw n at e)
]

found-is_active : (ie ip : ℕ) → OnlyActive ie ip (find_interrupt ie ip)
unfolding find_interrupt is_active
found-is_active ie ip = OnlyActive-test ie ip machine_external _ (
    OnlyActive-test ie ip machine_timer _ (
      OnlyActive-test ie ip machine_software _ (
        OnlyActive-test ie ip supervisor_external _ (
          OnlyActive-test ie ip supervisor_timer _ (
            OnlyActive-test ie ip supervisor_software _ (
              OnlyActive-test ie ip user_external _ (
                OnlyActive-test ie ip user_timer _
                  (OnlyActive-test ie ip user_software _ (λ t e. cc)))))))))

active-rank :
    (ie ip : ℕ) (u : InterruptType)
    → is_active ie ip u ≡ true
    → found_rank (find_interrupt ie ip) ≤ rank u
unfolding find_interrupt is_active rank
active-rank ie ip machine_external h = ground arith
active-rank ie ip _ h = ground arith

rank-lt : (u : InterruptType) → rank u < 9
unfolding rank
rank-lt machine_external = omega arith
rank-lt _ = omega arith

-- The interrupt that `Update` finds is enabled and pending, and no other enabled and pending one
-- comes before it in the order of privilege level, then external, timer, software.
pub find_interrupt-first :
    (ie ip : ℕ) (t : InterruptType)
    → find_interrupt ie ip ≡ some t
    → (is_active ie ip t ≡ true)
      × ((u : InterruptType) → is_active ie ip u ≡ true → rank t ≤ rank u)
find_interrupt-first ie ip t h = (found-is_active ie ip t h, λ u a. rw h at (active-rank ie ip u a))

-- None is found exactly when no interrupt is both enabled and pending.
pub find_interrupt-none_iff :
    (ie ip : ℕ) → (find_interrupt ie ip ≡ none) ↔ ((u : InterruptType) → is_active ie ip u ≡ false)
find_interrupt-none_iff ie ip = (
  λ h u. idle h u (Bool-cases (is_active ie ip u)),
  λ h. absent h (Option-cases (find_interrupt ie ip)),
)
  where
    idle :
        find_interrupt ie ip ≡ none
        → (u : InterruptType) → (is_active ie ip u ≡ true) ⊎ (is_active ie ip u ≡ false)
        → is_active ie ip u ≡ false
    idle h u (inl a) = absurd (omega (arith, rank-lt u, rw h at (active-rank ie ip u a)))
    idle h u (inr a) = a

    absent :
        ((u : InterruptType) → is_active ie ip u ≡ false)
        → (find_interrupt ie ip ≡ none) ⊎ ((t : InterruptType) × (find_interrupt ie ip ≡ some t))
        → find_interrupt ie ip ≡ none
    absent h (inl e) = e
    absent h (inr (t, e)) = cc (found-is_active ie ip t e, h t)
