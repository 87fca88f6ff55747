-- ===== src/Csr/Check.antt =====
-- Csr.cpp: `CheckTrap`, whether an access to a register is allowed, and
-- `GetPerformanceCounterIndex`.
use rafi_emu.Common.{
  ℕ, ◌-◌, ◌/◌, ◌^◌, Bool, true, false, ltb, leb, ◌==◌, is_set, not, ◌&&◌, ◌||◌, if◌then◌else◌,
  bit_and, Outcome, ok, throws, ◌>>=◌, ◌>>◌, check_range, Option, none, some,
}
use rafi_emu.BitField.{get_member}
use rafi_emu.Word.{u32, sext32}
use rafi_emu.RvTypes.{PrivilegeLevel, user, supervisor}
use rafi_emu.RvCsr.Addr
use rafi_emu.RvCsr.Status
use rafi_emu.Trap.{Trap, make_illegal_instruction_exception}
use rafi_emu.Csr.{
  Csr, is_supervisor_mode_register, is_reserved_mode_register, is_machine_mode_register,
}

abbrev pub is_user : PrivilegeLevel → Bool
is_user user = true
is_user _ = false

abbrev pub is_supervisor : PrivilegeLevel → Bool
is_supervisor supervisor = true
is_supervisor _ = false

abbrev pub within : ℕ → ℕ → ℕ → Bool
within first last addr = leb first addr && ltb addr last

unfoldable pub performance_counter_index : ℕ → Outcome ℕ
performance_counter_index addr =
    if within Addr.mhpmcounter_begin Addr.mhpmcounter_end addr
    then ok (addr - Addr.mhpmcounter_begin)
    else if within Addr.mhpmcounterh_begin Addr.mhpmcounterh_end addr
    then ok (addr - Addr.mhpmcounterh_begin)
    else if within Addr.hpmcounter_begin Addr.hpmcounter_end addr
    then ok (addr - Addr.hpmcounter_begin)
    else if within Addr.hpmcounterh_begin Addr.hpmcounterh_end addr
    then ok (addr - Addr.hpmcounterh_begin)
    else throws

-- `1 << index`, an `int` that is converted to 64 bits with its sign.
abbrev counter_mask : ℕ → ℕ
counter_mask index = sext32 (u32 (2 ^ index))

-- The `switch (m_PrivilegeLevel)`: whether the enable registers forbid the counter.
counter_forbidden : PrivilegeLevel → Csr → ℕ → Bool
counter_forbidden supervisor c m = not (is_set (bit_and c.machine_counter_enable m))
counter_forbidden user c m =
    not (is_set (bit_and c.machine_counter_enable m))
    || not (is_set (bit_and c.supervisor_counter_enable m))
counter_forbidden _ c m = false

-- The part of `CheckTrap` below `// Performance Counter`.
unfoldable pub check_counter : Csr → ℕ → ℕ → ℕ → Outcome (Option Trap)
unfolding counter_forbidden performance_counter_index
check_counter c addr pc insn = do
  index ← performance_counter_index addr
  check_range index 32
  ok (
      if counter_forbidden c.privilege_level c (counter_mask index)
      then some (make_illegal_instruction_exception pc insn)
      else none)

abbrev is_counter : ℕ → Bool
is_counter addr =
    within Addr.hpmcounter_begin Addr.hpmcounter_end addr
    || within Addr.hpmcounterh_begin Addr.hpmcounterh_end addr

-- to be compatible with qemu
unfoldable pub check_time : ℕ → ℕ → Option Trap
check_time addr pc =
    if addr == Addr.time then some (make_illegal_instruction_exception pc 0) else none

abbrev first_trap : Option Trap → Option Trap → Option Trap
first_trap (some t) u = some t
first_trap none u = u

-- The checks above `// Performance Counter`: true if one of them returns a trap.
unfoldable pub access_forbidden : Csr → ℕ → Bool → Bool
unfolding is_supervisor_mode_register is_reserved_mode_register is_machine_mode_register
access_forbidden c addr write =
    (is_supervisor_mode_register addr && is_user c.privilege_level)
    || is_reserved_mode_register addr
    || (is_machine_mode_register addr
        && (is_user c.privilege_level || is_supervisor c.privilege_level))
    || (addr / 2 ^ 10 == 3 && write)
    || ((addr == Addr.satp)
        && is_supervisor c.privilege_level
        && is_set (get_member Status.tvm c.status))

unfoldable pub check_trap : Csr → ℕ → Bool → ℕ → ℕ → Outcome (Option Trap)
unfolding check_counter check_time access_forbidden
check_trap c addr write pc insn = do
  check_range addr 4096
  if access_forbidden c addr write
      then ok (some (make_illegal_instruction_exception pc insn))
      else if is_counter addr
      then (do t ← check_counter c addr pc insn; ok (first_trap t (check_time addr pc)))
      else ok (check_time addr pc)
