-- ===== src/Executor/MulDivLaws.antt =====
-- src/rafi-emu/cpu/Executor.cpp: what the unsigned multiplications and divisions of RV32M compute together.
use rafi_emu.Common.{
  ℕ, Bool, true, false, ok, ◌≡◌, ◌≢◌, ◌<◌, ◌+◌, ◌*◌, ◌%◌, ◌/◌, ◌^◌, ◌-◌, ◌==◌, if◌then◌else◌, arith,
  refl,
}
use native.Mathlib.Nat.{div-add-mod', mod-lt}
use rafi_emu.Op.{OpCode}
use rafi_emu.Executor.MulDiv32.{mul_div_rv32m}

if-ok : {A : Type 0} (c : Bool) (x y : A) → (if c then ok x else ok y) ≡ ok (if c then x else y)
if-ok true x y = refl
if-ok false x y = refl

is_zero-false : (b : ℕ) → b ≢ 0 → (b == 0) ≡ false
is_zero-false b h = ground arith

is_zero-true : (b : ℕ) → b ≡ 0 → (b == 0) ≡ true
is_zero-true b h = ground arith

-- On 32-bit words, MULHU and MUL are the high and the low half of the product; DIVU and REMU give
-- `a = q * b + r` with `r < b` if `b` is not 0, and `2^32 - 1` and `a` if it is.
pub mul_div_rv32m-unsigned :
    (a b : ℕ)
    → a < 2 ^ 32
    → b < 2 ^ 32
    → (high : ℕ) × (low : ℕ) × (q : ℕ) × (r : ℕ) × (mul_div_rv32m OpCode.mulhu a b ≡ ok high)
      × (mul_div_rv32m OpCode.mul a b ≡ ok low)
      × (mul_div_rv32m OpCode.divu a b ≡ ok q)
      × (mul_div_rv32m OpCode.remu a b ≡ ok r)
      × (high * 2 ^ 32 + low ≡ a * b)
      × (low < 2 ^ 32)
      × (b ≢ 0 → (q * b + r ≡ a) × (r < b))
      × (b ≡ 0 → (q ≡ 2 ^ 32 - 1) × (r ≡ a))
unfolding mul_div_rv32m
mul_div_rv32m-unsigned a b ha hb = (
  a * b / 2 ^ 32,
  a * b % 2 ^ 32,
  (if b == 0 then 2 ^ 32 - 1 else a / b),
  (if b == 0 then a else a % b),
  refl,
  refl,
  if-ok (b == 0) (2 ^ 32 - 1) (a / b),
  if-ok (b == 0) a (a % b),
  omega arith,
  omega arith,
  λ h. rw (is_zero-false b h) (div-add-mod' a b, mod-lt a (omega arith)),
  λ h. rw (is_zero-true b h) (refl, refl),
)
