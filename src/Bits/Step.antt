-- ===== src/Bits/Step.antt =====
-- The lowest binary digit of `bit_and` and `bit_or`. The kernel defines both by a recursion over
-- the digits that spends fuel; any fuel from the first word upwards gives the same digits.
use Prim.Native.Nat.{min, max, digits, bitwise, bit_and-bitwise, bit_or-bitwise}
use rafi_emu.Common.{
  ℕ, zero, suc, ◌+◌, ◌-◌, ◌*◌, ◌/◌, ◌%◌, ◌≤◌, bit_and, bit_or, ◌≡◌, refl, sym, ap, ◌∙◌, arith,
}

module _ (rest : ℕ → ℕ) (combine : ℕ → ℕ → ℕ) where
  -- One more unit of fuel changes nothing.
  one_more :
      (x y fuel : ℕ) → x ≤ fuel → digits rest combine (suc fuel) x y ≡ digits rest combine fuel x y
  one_more zero y zero h = refl
  one_more zero y (suc fuel) h = refl
  one_more (suc x) y zero h = absurd (omega arith)
  one_more (suc x) y (suc fuel) h = rw (one_more (suc x / 2) (y / 2) fuel (omega arith))

  any_more :
      (extra x y fuel : ℕ)
      → x ≤ fuel
      → digits rest combine (extra + fuel) x y ≡ digits rest combine fuel x y
  any_more zero x y fuel h = let none : 0 + fuel ≡ fuel = omega arith in rw none refl
  any_more (suc extra) x y fuel h =
      let next : suc extra + fuel ≡ suc (extra + fuel) = omega arith in
      rw next (one_more x y (extra + fuel) (omega arith) ∙ any_more extra x y fuel h)

  lowest_digit :
      (x y : ℕ)
      → bitwise rest combine (suc x) y
        ≡ combine (suc x % 2) (y % 2) + 2 * bitwise rest combine (suc x / 2) (y / 2)
  lowest_digit x y =
      let half = suc x / 2 in
      let enough : (x - half) + half ≡ x = omega arith in
      let spared =
        ap (λ n. digits rest combine n half (y / 2)) (sym enough)
        ∙ any_more (x - half) half (y / 2) half (omega arith) in
      omega (arith, spared)

pub bit_and-halves : (x y : ℕ) → bit_and x y ≡ min (x % 2) (y % 2) + 2 * bit_and (x / 2) (y / 2)
bit_and-halves zero y = simp bit_and-bitwise (omega arith)
bit_and-halves (suc x) y = simp bit_and-bitwise (lowest_digit (λ _. 0) min x y)

pub bit_or-halves : (x y : ℕ) → bit_or x y ≡ max (x % 2) (y % 2) + 2 * bit_or (x / 2) (y / 2)
bit_or-halves zero y = simp bit_or-bitwise (omega arith)
bit_or-halves (suc x) y = simp bit_or-bitwise (lowest_digit (λ left. left) max x y)
