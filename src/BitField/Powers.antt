-- ===== src/BitField/Powers.antt =====
-- Sums of powers of two cut at a field: `a` is 2 to the position of the field, `k` 2 to its width,
-- `r` 2 to the number of bits above it.
use rafi_emu.Common.{ℕ, zero, suc, ◌+◌, ◌-◌, ◌*◌, ◌/◌, ◌%◌, ◌^◌, ◌<◌, ◌≡◌, ap, ◌∙◌, arith}
use rafi_emu.Bits.Fields.{div-of, mod-of}
use native.Mathlib.Nat.{pow-suc}

pub pred-mul : (n a : ℕ) → 0 < n → n * a ≡ (n - 1) * a + a
pred-mul zero a h = absurd (omega arith)
pred-mul (suc n) a h = grind arith

-- A word of ones.
ones-div : (n a : ℕ) → 0 < n → 0 < a → (n * a - 1) / a ≡ n - 1
ones-div n a hn ha =
    let split : n * a - 1 ≡ (n - 1) * a + (a - 1) = omega (arith, pred-mul n a hn) in
    ap (λ t. t / a) split ∙ div-of a (n - 1) (a - 1) (omega arith)

pub ones-mod : (n k : ℕ) → 0 < n → 0 < k → (n * k - 1) % k ≡ k - 1
ones-mod n k hn hk =
    let split : n * k - 1 ≡ (n - 1) * k + (k - 1) = omega (arith, pred-mul n k hn) in
    ap (λ t. t % k) split ∙ mod-of k (n - 1) (k - 1) (omega arith)

pub mul-div : (x a : ℕ) → 0 < a → (x * a) / a ≡ x
mul-div x a h = let e : x * a ≡ x * a + 0 = omega arith in ap (λ t. t / a) e ∙ div-of a x 0 h

pub full_field : (a k r : ℕ) → 0 < a → 0 < k → 0 < r → (r * k * a - 1) / a % k ≡ k - 1
full_field a k r ha hk hr =
    ap (λ t. t % k) (ones-div (r * k) a (omega (arith, pred-mul r k hr)) ha) ∙ ones-mod r k hr hk

pub distribute : (x y a : ℕ) → (x + y) * a ≡ x * a + y * a
distribute x y a = grind arith

pub outside : (a k r : ℕ) → 0 < a → 0 < k → 0 < r → (r * k * a - 1 - (k - 1) * a) / a % k ≡ 0
outside a k r ha hk hr =
    let above = ap (λ t. t * a) (pred-mul r k hr) ∙ distribute ((r - 1) * k) k a in
    let split : r * k * a - 1 - (k - 1) * a ≡ (r - 1) * k * a + (a - 1) =
      omega (arith, above, pred-mul k a hk) in
    let e : (r - 1) * k ≡ (r - 1) * k + 0 = omega arith in
    ap (λ t. t / a % k) split
    ∙ ap (λ t. t % k) (div-of a ((r - 1) * k) (a - 1) (omega arith) ∙ e)
    ∙ mod-of k (r - 1) 0 hk

pub below_mod : (k : ℕ) → 0 < k → (k - 1) % k ≡ k - 1
below_mod k h =
    let e : k - 1 ≡ 0 * k + (k - 1) = omega arith in
    ap (λ t. t % k) e ∙ mod-of k 0 (k - 1) (omega arith)

pub two_pow_add : (i j : ℕ) → 2 ^ (i + j) ≡ 2 ^ i * 2 ^ j
two_pow_add i zero = let e : i + 0 ≡ i = omega arith in rw e (omega arith)
two_pow_add i (suc j) =
    let e : i + suc j ≡ suc (i + j) = omega arith in
    rw e (pow-suc 2 (i + j) ∙ ap (λ t. t * 2) (two_pow_add i j) ∙ (rw (pow-suc 2 j) (grind arith)))
