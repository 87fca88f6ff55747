-- ===== src/Bits/Fields.antt =====
-- Cuts, masks and bounds of `bit_and` and `bit_or`.
use native.Mathlib.Nat.{pow-suc, one-le-pow}
use rafi_emu.Common.{
  ℕ, zero, suc, ◌+◌, ◌-◌, ◌*◌, ◌/◌, ◌%◌, ◌^◌, ◌<◌, bit_and, bit_or, ◌≡◌, ap, arith,
}
use rafi_emu.Bits.Step.{bit_or-halves, bit_and-halves}

pub pow-pos : (k : ℕ) → 0 < 2 ^ k
pow-pos k = one-le-pow k 2 (omega arith)

twice : (k q : ℕ) → 2 * (q * 2 ^ k) ≡ q * 2 ^ suc k
twice k q = omega (arith, ap (λ p. q * p) (pow-suc 2 k))

pub div-of : (m u v : ℕ) → v < m → (u * m + v) / m ≡ u
div-of m u v h = grind arith

pub mod-of : (m u v : ℕ) → v < m → (u * m + v) % m ≡ v
mod-of m u v h = grind arith

-- `bit_and` goes through a cut at bit `k`.
pub bit_and-cut :
    (k q r p s : ℕ)
    → r < 2 ^ k
    → s < 2 ^ k
    → (bit_and (q * 2 ^ k + r) (p * 2 ^ k + s) ≡ bit_and q p * 2 ^ k + bit_and r s)
      × (bit_and r s < 2 ^ k)
bit_and-cut zero q r p s hr hs =
    let er : r ≡ 0 = omega arith in let es : s ≡ 0 = omega arith in rw (er, es) (ground arith)
bit_and-cut (suc k) q r p s hr hs = ground (
  arith,
  bit_and-halves (q * 2 ^ suc k + r) (p * 2 ^ suc k + s),
  bit_and-halves r s,
  twice k q,
  twice k p,
  twice k (bit_and q p),
  pow-suc 2 k,
  bit_and-cut k q (r / 2) p (s / 2) (omega (arith, pow-suc 2 k)) (omega (arith, pow-suc 2 k)),
)

pub bit_and-cut_at :
    (k a b : ℕ)
    → (bit_and a b ≡ bit_and (a / 2 ^ k) (b / 2 ^ k) * 2 ^ k + bit_and (a % 2 ^ k) (b % 2 ^ k))
      × (bit_and (a % 2 ^ k) (b % 2 ^ k) < 2 ^ k)
bit_and-cut_at k a b = ground (
  arith,
  pow-pos k,
  bit_and-cut k (a / 2 ^ k) (a % 2 ^ k) (b / 2 ^ k) (b % 2 ^ k) (omega (arith, pow-pos k))
      (omega (arith, pow-pos k)),
)

pub bit_and-div : (k a b : ℕ) → bit_and a b / 2 ^ k ≡ bit_and (a / 2 ^ k) (b / 2 ^ k)
bit_and-div k a b = let cut = bit_and-cut_at k a b in rw cut.0 (div-of (2 ^ k) _ _ cut.1)

pub bit_and-mod : (k a b : ℕ) → bit_and a b % 2 ^ k ≡ bit_and (a % 2 ^ k) (b % 2 ^ k)
bit_and-mod k a b = let cut = bit_and-cut_at k a b in rw cut.0 (mod-of (2 ^ k) _ _ cut.1)

-- Words of `k` bits stay words of `k` bits.
pub bit_and-lt : (k a b : ℕ) → a < 2 ^ k → b < 2 ^ k → bit_and a b < 2 ^ k
bit_and-lt k a b ha hb = (bit_and-cut k 0 a 0 b ha hb).1

-- `bit_or` goes through a cut at bit `k`.
pub bit_or-cut :
    (k q r p s : ℕ)
    → r < 2 ^ k
    → s < 2 ^ k
    → (bit_or (q * 2 ^ k + r) (p * 2 ^ k + s) ≡ bit_or q p * 2 ^ k + bit_or r s)
      × (bit_or r s < 2 ^ k)
bit_or-cut zero q r p s hr hs =
    let er : r ≡ 0 = omega arith in let es : s ≡ 0 = omega arith in rw (er, es) (ground arith)
bit_or-cut (suc k) q r p s hr hs = ground (
  arith,
  bit_or-halves (q * 2 ^ suc k + r) (p * 2 ^ suc k + s),
  bit_or-halves r s,
  twice k q,
  twice k p,
  twice k (bit_or q p),
  pow-suc 2 k,
  bit_or-cut k q (r / 2) p (s / 2) (omega (arith, pow-suc 2 k)) (omega (arith, pow-suc 2 k)),
)

pub bit_or-cut_at :
    (k a b : ℕ)
    → (bit_or a b ≡ bit_or (a / 2 ^ k) (b / 2 ^ k) * 2 ^ k + bit_or (a % 2 ^ k) (b % 2 ^ k))
      × (bit_or (a % 2 ^ k) (b % 2 ^ k) < 2 ^ k)
bit_or-cut_at k a b = ground (
  arith,
  pow-pos k,
  bit_or-cut k (a / 2 ^ k) (a % 2 ^ k) (b / 2 ^ k) (b % 2 ^ k) (omega (arith, pow-pos k))
      (omega (arith, pow-pos k)),
)

pub bit_or-div : (k a b : ℕ) → bit_or a b / 2 ^ k ≡ bit_or (a / 2 ^ k) (b / 2 ^ k)
bit_or-div k a b = let cut = bit_or-cut_at k a b in rw cut.0 (div-of (2 ^ k) _ _ cut.1)

pub bit_or-mod : (k a b : ℕ) → bit_or a b % 2 ^ k ≡ bit_or (a % 2 ^ k) (b % 2 ^ k)
bit_or-mod k a b = let cut = bit_or-cut_at k a b in rw cut.0 (mod-of (2 ^ k) _ _ cut.1)

-- Words of `k` bits stay words of `k` bits.
pub bit_or-lt : (k a b : ℕ) → a < 2 ^ k → b < 2 ^ k → bit_or a b < 2 ^ k
bit_or-lt k a b ha hb = (bit_or-cut k 0 a 0 b ha hb).1

bit_or-zero_below : (k a : ℕ) → a < 2 ^ k → bit_or a 0 ≡ a
bit_or-zero_below zero a h = let e : a ≡ 0 = omega arith in rw e
bit_or-zero_below (suc k) a h = omega (
  arith,
  bit_or-halves a 0,
  pow-suc 2 k,
  bit_or-zero_below k (a / 2) (omega (arith, pow-suc 2 k)),
)

bit_and-zero_below : (k a : ℕ) → a < 2 ^ k → bit_and a 0 ≡ 0
bit_and-zero_below zero a h = let e : a ≡ 0 = omega arith in rw e
bit_and-zero_below (suc k) a h = omega (
  arith,
  bit_and-halves a 0,
  pow-suc 2 k,
  bit_and-zero_below k (a / 2) (omega (arith, pow-suc 2 k)),
)

-- Every number is below some power of two.
lt-pow : (n : ℕ) → n < 2 ^ n
lt-pow zero = omega arith
lt-pow (suc n) = omega (arith, lt-pow n, pow-suc 2 n)

pub bit_or-zero : (a : ℕ) → bit_or a 0 ≡ a
bit_or-zero a = bit_or-zero_below a a (lt-pow a)

pub bit_and-zero : (a : ℕ) → bit_and a 0 ≡ 0
bit_and-zero a = bit_and-zero_below a a (lt-pow a)

zero-bit_or_below : (k a : ℕ) → a < 2 ^ k → bit_or 0 a ≡ a
zero-bit_or_below zero a h = let e : a ≡ 0 = omega arith in rw e
zero-bit_or_below (suc k) a h = omega (
  arith,
  bit_or-halves 0 a,
  pow-suc 2 k,
  zero-bit_or_below k (a / 2) (omega (arith, pow-suc 2 k)),
)

pub zero-bit_or : (a : ℕ) → bit_or 0 a ≡ a
zero-bit_or a = zero-bit_or_below a a (lt-pow a)

bit_and_low : (k q r : ℕ) → r < 2 ^ k → bit_and (q * 2 ^ k + r) (2 ^ k - 1) ≡ r
bit_and_low zero q r h = ground (arith, bit_and-zero (q * 1 + r))
bit_and_low (suc k) q r h = ground (
  arith,
  bit_and-halves (q * 2 ^ suc k + r) (2 ^ suc k - 1),
  twice k q,
  pow-suc 2 k,
  pow-pos k,
  bit_and_low k q (r / 2) (omega (arith, pow-suc 2 k)),
)

-- A mask of `k` low ones takes the remainder by `2 ^ k`.
pub bit_and_mask : (k a : ℕ) → bit_and a (2 ^ k - 1) ≡ a % 2 ^ k
bit_and_mask k a =
    ground (arith, pow-pos k, bit_and_low k (a / 2 ^ k) (a % 2 ^ k) (omega (arith, pow-pos k)))
