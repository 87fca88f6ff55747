-- ===== src/BitField/Members.antt =====
-- `SetMember` and `GetMember` of include/rafi/common/BitField.h for every field of a word.
use rafi_emu.Common.{
  ◌⊎◌, inl, inr, ℕ, ◌+◌, ◌-◌, ◌*◌, ◌/◌, ◌%◌, ◌^◌, ◌<◌, ◌≤◌, ◌≡◌, sym, ap, ◌∙◌, arith,
}
use rafi_emu.Bits.Fields.{pow-pos, div-of, mod-of}
use native.Mathlib.Nat.{pow-le-pow_right}
use rafi_emu.BitField.{Member, width, mask, get_member, set_member}
use rafi_emu.BitField.Laws.{
  Covers, Misses, get_member-field, set_member_covered, set_member_missed, field-mod_covered,
}
use rafi_emu.BitField.Powers.{
  pred-mul, ones-mod, mul-div, full_field, distribute, outside, below_mod, two_pow_add,
}

-- The field lies in a word of `w` bits.
pub record IsWithin (w : ℕ) (m : Member) : Type 0 where
  pub ordered : m.lsb ≤ m.msb
  pub inside : m.msb < w

word_split :
    (w : ℕ) (m : Member) → IsWithin w m → 2 ^ w ≡ 2 ^ (w - 1 - m.msb) * 2 ^ width m * 2 ^ m.lsb
word_split w m h =
    let e : w ≡ w - 1 - m.msb + width m + m.lsb = omega (arith, h.ordered, h.inside) in
    ap (λ t. 2 ^ t) e
    ∙ two_pow_add (w - 1 - m.msb + width m) m.lsb
    ∙ ap (λ t. t * 2 ^ m.lsb) (two_pow_add (w - 1 - m.msb) (width m))

Covers-word : (w : ℕ) (m : Member) → IsWithin w m → Covers m (2 ^ w - 1)
Covers-word w m h =
    rw (word_split w m h) (
      full_field (2 ^ m.lsb) (2 ^ width m) (2 ^ (w - 1 - m.msb)) (pow-pos _) (pow-pos _)
        (pow-pos _))

Covers-mask : (m : Member) → Covers m (mask m)
Covers-mask m =
    ap (λ t. t % 2 ^ width m) (mul-div (2 ^ width m - 1) (2 ^ m.lsb) (pow-pos _))
    ∙ below_mod (2 ^ width m) (pow-pos (width m))

Misses-outside : (w : ℕ) (m : Member) → IsWithin w m → Misses m (2 ^ w - 1 - mask m)
Misses-outside w m h =
    rw (word_split w m h)
      (outside (2 ^ m.lsb) (2 ^ width m) (2 ^ (w - 1 - m.msb)) (pow-pos _) (pow-pos _) (pow-pos _))

-- A field of a word reads what was last written to it, cut to the width of the field, whatever the
-- word held before.
pub get_member-set_member :
    (w : ℕ) (m : Member) (v x : ℕ)
    → IsWithin w m
    → get_member m (set_member w m v x) ≡ x % 2 ^ width m
get_member-set_member w m v x h =
    get_member-field m (set_member w m v x)
    ∙ set_member_covered w m m v x (Covers-mask m) (Misses-outside w m h)
    ∙ field-mod_covered w m (x * 2 ^ m.lsb) (Covers-word w m h)
    ∙ ap (λ t. t % 2 ^ width m) (mul-div x (2 ^ m.lsb) (pow-pos _))

-- A mask `low` below the field `f`, which has `r` above it.
below-Covers : (a k r low : ℕ) → low < a → 0 < k → 0 < r → (r * k * a - 1 - low) / a % k ≡ k - 1
below-Covers a k r low h hk hr =
    let some_above : 0 < r * k = omega (arith, pred-mul r k hr) in
    let split : r * k * a - 1 - low ≡ (r * k - 1) * a + (a - 1 - low) =
      omega (arith, pred-mul (r * k) a some_above) in
    ap (λ t. t / a % k) split
    ∙ ap (λ t. t % k) (div-of a (r * k - 1) (a - 1 - low) (omega arith))
    ∙ ones-mod r k hr hk

below_mod_zero : (k : ℕ) → 0 < k → 0 % k ≡ 0
below_mod_zero k h = let e : 0 ≡ 0 * k + 0 = omega arith in ap (λ t. t % k) e ∙ mod-of k 0 0 h

small-Misses : (a k low : ℕ) → low < a → 0 < k → low / a % k ≡ 0
small-Misses a k low h hk =
    let e : low ≡ 0 * a + low = omega arith in
    ap (λ t. t / a % k) e ∙ ap (λ t. t % k) (div-of a 0 low h) ∙ below_mod_zero k hk

mask-lt : (m : Member) → m.lsb ≤ m.msb → mask m < 2 ^ (m.msb + 1)
mask-lt m o =
    let e : m.msb + 1 ≡ width m + m.lsb = omega arith in
    let whole = ap (λ t. 2 ^ t) e ∙ two_pow_add (width m) m.lsb in
    omega (arith, whole, pred-mul (2 ^ width m) (2 ^ m.lsb) (pow-pos _), pow-pos m.lsb)

-- A field above another one keeps its value when the other one is written.
get_member-set_member_above :
    (w : ℕ) (f m : Member) (v x : ℕ)
    → IsWithin w f
    → m.lsb ≤ m.msb
    → m.msb < f.lsb
    → get_member f (set_member w m v x) ≡ get_member f v
get_member-set_member_above w f m v x h o below =
    let small : mask m < 2 ^ f.lsb = omega (
      arith,
      mask-lt m o,
      pow-le-pow_right {n = 2} (omega arith) {i = m.msb + 1} {j = f.lsb} (omega arith),
    ) in
    get_member-field f (set_member w m v x)
    ∙ set_member_missed w f m v x
        (small-Misses (2 ^ f.lsb) (2 ^ width f) (mask m) small (pow-pos _))
        (rw (word_split w f h) (
          below-Covers (2 ^ f.lsb) (2 ^ width f) (2 ^ (w - 1 - f.msb)) (mask m) small (pow-pos _)
            (pow-pos _)))
    ∙ sym (get_member-field f v)

-- A mask `c * k * a` above the field.
above-Covers : (a k r c : ℕ) → 0 < a → 0 < k → c < r → (r * k * a - 1 - c * k * a) / a % k ≡ k - 1
above-Covers a k r c ha hk hr =
    let parts : r ≡ (r - c) + c = omega arith in
    let outer =
      ap (λ t. t * k * a) parts
      ∙ ap (λ t. t * a) (distribute (r - c) c k)
      ∙ distribute ((r - c) * k) (c * k) a in
    let rest : r * k * a - 1 - c * k * a ≡ (r - c) * k * a - 1 = omega (arith, outer) in
    ap (λ t. t / a % k) rest ∙ full_field a k (r - c) ha hk (omega arith)

above-Misses : (a k c : ℕ) → 0 < a → 0 < k → (c * k * a) / a % k ≡ 0
above-Misses a k c ha hk =
    let e : c * k ≡ c * k + 0 = omega arith in
    ap (λ t. t % k) (mul-div (c * k) a ha ∙ e) ∙ mod-of k c 0 hk

regroup : (p q r s : ℕ) → p * (q * r * s) ≡ p * q * r * s
regroup p q r s = grind arith

at_least : (q y : ℕ) → 0 < q → y ≤ q * y
at_least q y h = omega (arith, pred-mul q y h)

-- The mask of `m` in units of the field `f` below it.
abbrev units : Member → Member → ℕ
units f m = (2 ^ width m - 1) * 2 ^ (m.lsb - f.msb - 1)

mask-units :
    (f m : Member) → f.lsb ≤ f.msb → f.msb < m.lsb → mask m ≡ units f m * 2 ^ width f * 2 ^ f.lsb
mask-units f m o h =
    let e : m.lsb ≡ m.lsb - f.msb - 1 + width f + f.lsb = omega arith in
    let whole =
      ap (λ t. 2 ^ t) e
      ∙ two_pow_add (m.lsb - f.msb - 1 + width f) f.lsb
      ∙ ap (λ t. t * 2 ^ f.lsb) (two_pow_add (m.lsb - f.msb - 1) (width f)) in
    ap (λ t. (2 ^ width m - 1) * t) whole
    ∙ regroup (2 ^ width m - 1) (2 ^ (m.lsb - f.msb - 1)) (2 ^ width f) (2 ^ f.lsb)

units-lt : (w : ℕ) (f m : Member) → IsWithin w m → f.msb < m.lsb → units f m < 2 ^ (w - 1 - f.msb)
units-lt w f m o h =
    let above = w - 1 - m.msb in
    let gap = m.lsb - f.msb - 1 in
    let e : w - 1 - f.msb ≡ above + (width m + gap) = omega (arith, o.ordered, o.inside) in
    let whole = ap (λ t. 2 ^ t) e ∙ two_pow_add above (width m + gap) in
    omega (
      arith,
      whole,
      two_pow_add (width m) gap,
      at_least (2 ^ above) (2 ^ (width m + gap)) (pow-pos _),
      pred-mul (2 ^ width m) (2 ^ gap) (pow-pos _),
      pow-pos gap,
    )

-- A field below another one keeps its value when the other one is written.
get_member-set_member_below :
    (w : ℕ) (f m : Member) (v x : ℕ)
    → IsWithin w m
    → f.lsb ≤ f.msb
    → f.msb < m.lsb
    → get_member f (set_member w m v x) ≡ get_member f v
get_member-set_member_below w f m v x h o below =
    let within : IsWithin w f = record {
      ordered = o;
      inside = omega (arith, h.ordered, h.inside);
    } in
    let c = units f m in
    let e = mask-units f m o below in
    get_member-field f (set_member w m v x)
    ∙ set_member_missed w f m v x
        (ap (λ t. t / 2 ^ f.lsb % 2 ^ width f) e
          ∙ above-Misses (2 ^ f.lsb) (2 ^ width f) c (pow-pos _) (pow-pos _))
        (ap (λ t. (2 ^ w - 1 - t) / 2 ^ f.lsb % 2 ^ width f) e
          ∙ ap (λ t. (t - 1 - c * 2 ^ width f * 2 ^ f.lsb) / 2 ^ f.lsb % 2 ^ width f)
              (word_split w f within)
          ∙ above-Covers (2 ^ f.lsb) (2 ^ width f) (2 ^ (w - 1 - f.msb)) c (pow-pos _) (pow-pos _)
              (units-lt w f m h below))
    ∙ sym (get_member-field f v)

-- Writing a field keeps every other field of the word that shares no bit with it.
pub get_member-set_member_apart :
    (w : ℕ) (f m : Member) (v x : ℕ)
    → IsWithin w f
    → IsWithin w m
    → (m.msb < f.lsb) ⊎ (f.msb < m.lsb)
    → get_member f (set_member w m v x) ≡ get_member f v
get_member-set_member_apart w f m v x hf hm (inl above) =
    get_member-set_member_above w f m v x hf hm.ordered above
get_member-set_member_apart w f m v x hf hm (inr below) =
    get_member-set_member_below w f m v x hm hf.ordered below
