-- ===== src/Word.antt =====
-- include/rafi/common/Util.h: the halves of a 64-bit word, and extension of narrow values. An
-- `int32_t` is its bit pattern, a number below `2 ^ 32`; `sext32` is its conversion to 64 bits.
use rafi_emu.Common.{ℕ, ◌+◌, ◌-◌, ◌*◌, ◌/◌, ◌%◌, ◌^◌, ltb, is_set, if◌then◌else◌, bit_and, bit_or}

abbrev pub u32 : ℕ → ℕ
u32 n = n % 2 ^ 32

abbrev pub u64 : ℕ → ℕ
u64 n = n % 2 ^ 64

abbrev pub sext32 : ℕ → ℕ
sext32 n = if ltb n (2 ^ 31) then n else n + (2 ^ 64 - 2 ^ 32)

unfoldable pub get_high32 : ℕ → ℕ
get_high32 v = u32 (v / 2 ^ 32)

unfoldable pub get_low32 : ℕ → ℕ
get_low32 v = u32 (bit_and v 0xffff_ffff)

-- `*pOut &= 0x00000000ffffffff; *pOut |= static_cast<int64_t>(value) << 32;`
unfoldable pub set_high32 : ℕ → ℕ → ℕ
set_high32 out value = bit_or (bit_and out 0xffff_ffff) (u64 (sext32 value * 2 ^ 32))

-- `*pOut &= 0xffffffff00000000; *pOut |= value;`, where `value` is an `int32_t`.
unfoldable pub set_low32 : ℕ → ℕ → ℕ
set_low32 out value = bit_or (bit_and out 0xffff_ffff_0000_0000) (sext32 value)

-- `SignExtend<T>(srcWidth, srcValue)` at a `T` of `w` bits.
unfoldable pub sign_extend : ℕ → ℕ → ℕ → ℕ
sign_extend w src_width v =
    if is_set (bit_and v (2 ^ (src_width - 1) % 2 ^ w))
    then bit_or v ((2 ^ w - 1) * 2 ^ (src_width - 1) % 2 ^ w)
    else v

-- `ZeroExtend<T>(srcWidth, srcValue)`, for a `srcWidth` below the width of `T`.
unfoldable pub zero_extend : ℕ → ℕ → ℕ
zero_extend src_width v = bit_and v (2 ^ src_width - 1)
