-- ===== src/Executor/Arith.antt =====
-- src/rafi-emu/cpu/Executor.cpp: the C++ operators on integers of `w` bits. A signed integer is its bits. Signed
-- sums, differences and products wrap; a shift by the width or more has no meaning.
use rafi_emu.Common.{
  ℕ, ◌+◌, ◌-◌, ◌*◌, ◌/◌, ◌%◌, ◌^◌, Bool, ltb, leb, if◌then◌else◌, Outcome, ok, ◌>>◌, assert,
}

abbrev pub add : ℕ → ℕ → ℕ → ℕ
add w a b = (a + b) % 2 ^ w

abbrev pub sub : ℕ → ℕ → ℕ → ℕ
sub w a b = (a + (2 ^ w - b)) % 2 ^ w

abbrev pub mul : ℕ → ℕ → ℕ → ℕ
mul w a b = a * b % 2 ^ w

-- `~a`
abbrev pub bit_not : ℕ → ℕ → ℕ
bit_not w a = 2 ^ w - 1 - a

abbrev pub of_bool : Bool → ℕ
of_bool b = if b then 1 else 0

abbrev pub is_negative : ℕ → ℕ → Bool
is_negative w a = leb (2 ^ (w - 1)) a

-- `a < b` on signed integers: both are moved up by half of the range.
unfoldable pub less : ℕ → ℕ → ℕ → Bool
less w a b = ltb ((a + 2 ^ (w - 1)) % 2 ^ w) ((b + 2 ^ (w - 1)) % 2 ^ w)

-- The conversion of a signed integer of `v` bits to `w` bits.
abbrev pub convert : ℕ → ℕ → ℕ → ℕ
convert w v a = if ltb a (2 ^ (v - 1)) then a else a + (2 ^ w - 2 ^ v)

-- `a << n`, and `a >> n` on unsigned and on signed integers.
unfoldable pub shift_left : ℕ → ℕ → ℕ → Outcome ℕ
shift_left w a n = assert (ltb n w) >> ok (a * 2 ^ n % 2 ^ w)

unfoldable pub shift_right : ℕ → ℕ → ℕ → Outcome ℕ
shift_right w a n = assert (ltb n w) >> ok (a / 2 ^ n)

unfoldable pub shift_right_signed : ℕ → ℕ → ℕ → Outcome ℕ
shift_right_signed w a n =
    assert (ltb n w) >> ok (if is_negative w a then bit_not w (bit_not w a / 2 ^ n) else a / 2 ^ n)

abbrev pub negate : ℕ → ℕ → ℕ
negate w a = (2 ^ w - a) % 2 ^ w

abbrev pub magnitude : ℕ → ℕ → ℕ
magnitude w a = if is_negative w a then 2 ^ w - a else a

-- `a / b` and `a % b` on signed integers: towards zero, and with the sign of `a`.
unfoldable pub quotient : ℕ → ℕ → ℕ → ℕ
quotient w a b =
    let q = magnitude w a / magnitude w b in
    if is_negative w a
    then (if is_negative w b then q else negate w q)
    else if is_negative w b
    then negate w q
    else q

unfoldable pub remainder : ℕ → ℕ → ℕ → ℕ
remainder w a b = let r = magnitude w a % magnitude w b in if is_negative w a then negate w r else r
