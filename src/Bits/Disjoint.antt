-- ===== src/Bits/Disjoint.antt =====
-- `|` of words without a common bit is their sum.
use rafi_emu.Common.{ℕ, ◌+◌, ◌*◌, ◌^◌, ◌<◌, bit_or, ◌≡◌, ◌∙◌, arith}
use rafi_emu.Bits.Fields.{pow-pos, bit_or-cut, bit_or-zero, zero-bit_or}

-- The cut of words that are given by their two parts.
bit_or-parts :
    (k a l b r x y : ℕ)
    → l < 2 ^ k
    → r < 2 ^ k
    → x ≡ a * 2 ^ k + l
    → y ≡ b * 2 ^ k + r
    → bit_or x y ≡ bit_or a b * 2 ^ k + bit_or l r
bit_or-parts k a l b r x y hl hr ex ey = rw (ex, ey) (bit_or-cut k a l b r hl hr).0

pub bit_or_low : (k a b : ℕ) → b < 2 ^ k → bit_or (a * 2 ^ k) b ≡ a * 2 ^ k + b
bit_or_low k a b h =
    bit_or-parts k a 0 0 b _ _ (pow-pos k) h (omega arith) (omega arith)
    ∙ rw (bit_or-zero a, zero-bit_or b)

-- The bits of `b` go between those of `a` and those of `l`.
pub bit_or_between :
    (k j a l b : ℕ)
    → l < 2 ^ k
    → b < 2 ^ j
    → bit_or (a * 2 ^ j * 2 ^ k + l) (b * 2 ^ k) ≡ (a * 2 ^ j + b) * 2 ^ k + l
bit_or_between k j a l b hl hb =
    bit_or-parts k (a * 2 ^ j) l b 0 _ _ hl (pow-pos k) (omega arith) (omega arith)
    ∙ rw (bit_or-zero l, bit_or_low j a b hb)
