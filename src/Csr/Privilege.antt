-- ===== src/Csr/Privilege.antt =====
-- What `CheckTrap` of src/rafi-emu/cpu/Csr.cpp lets through.
use rafi_emu.Common.{
  ℕ, ◌/◌, ◌^◌, ◌≤◌, ◌≡◌, ◌≢◌, refl, arith, Bool, false, Bool-cases, inl, inr, ◌&&◌, ◌||◌, none, ok,
}
use rafi_emu.RvTypes.{PrivilegeLevel, user, supervisor, reserved, machine, privilege_code}
use rafi_emu.Csr.{
  Csr, address_mode, is_supervisor_mode_register, is_reserved_mode_register,
  is_machine_mode_register,
}
use rafi_emu.Csr.Check.{
  check_trap, check_time, check_counter, access_forbidden, is_user, is_supervisor,
}
use rafi_emu.Bits.Fields.{bit_and_mask}
use rafi_emu.RvCsr.Addr

-- An address holds in bits 9 and 8 the lowest level that may access it, which is at most machine.
allowed_level :
    (addr : ℕ) (l : PrivilegeLevel)
    → address_mode addr ≤ 3
    → l ≢ reserved
    → (is_supervisor_mode_register addr && is_user l) ≡ false
    → is_reserved_mode_register addr ≡ false
    → (is_machine_mode_register addr && (is_user l || is_supervisor l)) ≡ false
    → address_mode addr ≤ privilege_code l
unfolding is_supervisor_mode_register is_reserved_mode_register is_machine_mode_register
allowed_level addr user le h s r m = ground arith
allowed_level addr supervisor le h s r m = ground arith
allowed_level addr reserved le h s r m = absurd (h refl)
allowed_level addr machine le h s r m = le

address_mode-le : (addr : ℕ) → address_mode addr ≤ 3
address_mode-le addr = rw (bit_and_mask 2 (addr / 2 ^ 8)) (omega arith)

access_forbidden-false :
    (c : Csr) (addr : ℕ) (write : Bool)
    → c.privilege_level ≢ reserved
    → access_forbidden c addr write ≡ false
    → (address_mode addr ≤ privilege_code c.privilege_level) × ((addr / 2 ^ 10 ≡ 3) → write ≡ false)
unfolding access_forbidden
access_forbidden-false c addr write h e =
    let s : (is_supervisor_mode_register addr && is_user c.privilege_level) ≡ false =
      ground arith in
    let r : is_reserved_mode_register addr ≡ false = ground arith in
    let m : (is_machine_mode_register addr
          && (is_user c.privilege_level || is_supervisor c.privilege_level))
        ≡ false =
      ground arith in
    (allowed_level addr c.privilege_level (address_mode-le addr) h s r m, λ k. ground arith)

check_trap-allowed :
    (c : Csr) (addr : ℕ) (write : Bool) (pc insn : ℕ)
    → check_trap c addr write pc insn ≡ ok none
    → access_forbidden c addr write ≡ false
unfolding check_trap
check_trap-allowed c addr write pc insn e = elim (Bool-cases (access_forbidden c addr write)) [
  | inl f ↦ ground arith
  | inr f ↦ f
]

not_time :
    (c : Csr) (addr : ℕ) (write : Bool) (pc insn : ℕ)
    → check_trap c addr write pc insn ≡ ok none
    → addr ≢ Addr.time
unfolding check_trap check_time access_forbidden check_counter
not_time c addr write pc insn e = λ t. let x = rw t at e in ground arith

-- Where `CheckTrap` finds no trap, and the privilege level is not the reserved one: the level is at
-- least the one that the address asks for, a register of the read-only range is not written, and
-- the register is not `time`.
pub check_trap-none :
    (c : Csr) (addr : ℕ) (write : Bool) (pc insn : ℕ)
    → c.privilege_level ≢ reserved
    → check_trap c addr write pc insn ≡ ok none
    → (address_mode addr ≤ privilege_code c.privilege_level)
      × ((addr / 2 ^ 10 ≡ 3) → write ≡ false)
      × (addr ≢ Addr.time)
check_trap-none c addr write pc insn h e =
    let (level, read_only) =
      access_forbidden-false c addr write h (check_trap-allowed c addr write pc insn e) in
    (level, read_only, not_time c addr write pc insn e)
