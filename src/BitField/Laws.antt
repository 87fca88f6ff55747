-- ===== src/BitField/Laws.antt =====
-- What a field reads after each operation of BitField.h. `field m v` is the arithmetic meaning of a
-- field; a mask covers a field that it has all bits of, and misses one that it has no bit of.
use rafi_emu.Common.{ℕ, ◌-◌, ◌*◌, ◌/◌, ◌%◌, ◌^◌, ◌<◌, bit_and, bit_or, ◌≡◌, refl, arith}
use rafi_emu.Bits.Fields.{
  bit_and-div, bit_and-mod, bit_or-div, bit_or-mod, bit_or-zero, zero-bit_or, bit_and-zero,
  bit_and_mask, bit_and-lt, bit_or-lt, pow-pos,
}
use rafi_emu.BitField.{Member, width, mask, get_member, set_with_mask, set_member}
use native.Mathlib.Nat.{mul-div_cancel, mod-mod}

abbrev pub field : Member → ℕ → ℕ
field m v = v / 2 ^ m.lsb % 2 ^ width m

abbrev pub Covers : Member → ℕ → Type 0
Covers f m = field f m ≡ 2 ^ width f - 1

abbrev pub Misses : Member → ℕ → Type 0
Misses f m = field f m ≡ 0

-- `GetMember` takes the bits of the field, shifted down.
pub get_member-field : (m : Member) (v : ℕ) → get_member m v ≡ field m v
unfolding get_member
get_member-field m v =
    rw (bit_and-div m.lsb v (mask m), mul-div_cancel (2 ^ width m - 1) (pow-pos m.lsb))
      (bit_and_mask (width m) (v / 2 ^ m.lsb))

field-bit_and : (f : Member) (a b : ℕ) → field f (bit_and a b) ≡ bit_and (field f a) (field f b)
field-bit_and f a b =
    rw (bit_and-div f.lsb a b) (bit_and-mod (width f) (a / 2 ^ f.lsb) (b / 2 ^ f.lsb))

field-bit_or : (f : Member) (a b : ℕ) → field f (bit_or a b) ≡ bit_or (field f a) (field f b)
field-bit_or f a b =
    rw (bit_or-div f.lsb a b) (bit_or-mod (width f) (a / 2 ^ f.lsb) (b / 2 ^ f.lsb))

pub field-bit_and_covered : (f : Member) (v m : ℕ) → Covers f m → field f (bit_and v m) ≡ field f v
field-bit_and_covered f v m h =
    rw (field-bit_and f v m, h, bit_and_mask (width f) (field f v)) (mod-mod _ _)

pub field-bit_and_missed : (f : Member) (v m : ℕ) → Misses f m → field f (bit_and v m) ≡ 0
field-bit_and_missed f v m h = rw (field-bit_and f v m, h) (bit_and-zero (field f v))

pub set_with_mask_covered :
    (w : ℕ) (f : Member) (v x m : ℕ)
    → Covers f m
    → Misses f (2 ^ w - 1 - m)
    → field f (set_with_mask w v x m) ≡ field f x
unfolding set_with_mask
set_with_mask_covered w f v x m c n =
    rw
      (
        field-bit_or f (bit_and v (2 ^ w - 1 - m)) (bit_and x m),
        field-bit_and_missed f v (2 ^ w - 1 - m) n,
        field-bit_and_covered f x m c,
      )
      (zero-bit_or (field f x))

pub set_with_mask_missed :
    (w : ℕ) (f : Member) (v x m : ℕ)
    → Misses f m
    → Covers f (2 ^ w - 1 - m)
    → field f (set_with_mask w v x m) ≡ field f v
unfolding set_with_mask
set_with_mask_missed w f v x m n c =
    rw
      (
        field-bit_or f (bit_and v (2 ^ w - 1 - m)) (bit_and x m),
        field-bit_and_covered f v (2 ^ w - 1 - m) c,
        field-bit_and_missed f x m n,
      )
      (bit_or-zero (field f v))

-- `SetMember` is `SetWithMask` with the value shifted up.
pub set_member-set_with_mask :
    (w : ℕ) (m : Member) (v x : ℕ)
    → set_member w m v x ≡ set_with_mask w v (x * 2 ^ m.lsb % 2 ^ w) (mask m)
unfolding set_member set_with_mask
set_member-set_with_mask w m v x = refl

pub set_with_mask-lt :
    (w v x m : ℕ) → v < 2 ^ w → x < 2 ^ w → m < 2 ^ w → set_with_mask w v x m < 2 ^ w
unfolding set_with_mask
set_with_mask-lt w v x m hv hx hm =
    bit_or-lt w _ _ (bit_and-lt w v _ hv (omega (arith, pow-pos w))) (bit_and-lt w x m hx hm)

pub set_member_covered :
    (w : ℕ) (f m : Member) (v x : ℕ)
    → Covers f (mask m)
    → Misses f (2 ^ w - 1 - mask m)
    → field f (set_member w m v x) ≡ field f (x * 2 ^ m.lsb % 2 ^ w)
set_member_covered w f m v x c n =
    rw (set_member-set_with_mask w m v x) (set_with_mask_covered w f v _ (mask m) c n)

pub set_member_missed :
    (w : ℕ) (f m : Member) (v x : ℕ)
    → Misses f (mask m)
    → Covers f (2 ^ w - 1 - mask m)
    → field f (set_member w m v x) ≡ field f v
set_member_missed w f m v x n c =
    rw (set_member-set_with_mask w m v x) (set_with_mask_missed w f v _ (mask m) n c)

-- Narrowing to the low `k` bits keeps the fields that lie in them.
pub field-mod_covered :
    (k : ℕ) (f : Member) (v : ℕ) → Covers f (2 ^ k - 1) → field f (v % 2 ^ k) ≡ field f v
field-mod_covered k f v c = rw (← bit_and_mask k v) (field-bit_and_covered f v (2 ^ k - 1) c)
