-- ===== src/Base/Bits/Step.antt =====
-- `^`, `|` and `&` on the lowest binary digit. The native operations count the digits down from
-- their first argument; a count that is higher gives the same.
use Prim.Native.Nat.{
  ℕ, zero, suc, ◌+◌, ◌*◌, ◌/◌, ◌%◌, ◌≤◌, min, max, digits, differ, bit_and, bit_or, bit_xor,
  bit_and-bitwise, bit_or-bitwise, bit_xor-bitwise,
}
use mathlib.Core.Path.{◌≡◌, refl, ap, ◌∙◌}
use native.Mathlib.Omega.{arith}
use native.Mathlib.Decide.{dec_lt}

module _ (rest : ℕ → ℕ) (digit : ℕ → ℕ → ℕ) where
  one_more :
      (count a b : ℕ) → a ≤ count → digits rest digit (suc count) a b ≡ digits rest digit count a b
  one_more zero zero b room = refl
  one_more zero (suc a) b room = elim room [ ]
  one_more (suc count) zero b room = refl
  one_more (suc count) (suc a) b room =
      ap (λ high. high * 2 + digit (suc a % 2) (b % 2))
        (one_more count (suc a / 2) (b / 2) (omega arith))

  same_count : (m n a b : ℕ) → m ≡ n → digits rest digit m a b ≡ digits rest digit n a b
  same_count m n a b e = ap (λ count. digits rest digit count a b) e

  -- Down from any count to one that is enough.
  count_down :
      (high low a b : ℕ)
      → a ≤ low
      → low ≤ high
      → digits rest digit high a b ≡ digits rest digit low a b
  count_down zero low a b room order = same_count zero low a b (omega arith)
  count_down (suc high) low a b room order = elim (dec_lt high low) [
    | yes same ↦ same_count (suc high) low a b (omega arith)
    | no less ↦ one_more high a b (omega arith) ∙ count_down high low a b room (omega arith)
  ]

  lowest_digit :
      (a b : ℕ)
      → digits rest digit (suc a) (suc a) b
        ≡ digit (suc a % 2) (b % 2) + 2 * digits rest digit (suc a / 2) (suc a / 2) (b / 2)
  lowest_digit a b =
      omega (arith, count_down a (suc a / 2) (suc a / 2) (b / 2) (omega arith) (omega arith))

pub bit_xor_step : (x y : ℕ) → bit_xor x y ≡ differ (x % 2) (y % 2) + 2 * bit_xor (x / 2) (y / 2)
bit_xor_step zero y = simp bit_xor-bitwise (omega arith)
bit_xor_step (suc x) y = simp bit_xor-bitwise (lowest_digit (λ n. n) differ x y)

pub bit_or_step : (x y : ℕ) → bit_or x y ≡ max (x % 2) (y % 2) + 2 * bit_or (x / 2) (y / 2)
bit_or_step zero y = simp bit_or-bitwise (omega arith)
bit_or_step (suc x) y = simp bit_or-bitwise (lowest_digit (λ n. n) max x y)

pub bit_and_step : (x y : ℕ) → bit_and x y ≡ min (x % 2) (y % 2) + 2 * bit_and (x / 2) (y / 2)
bit_and_step zero y = simp bit_and-bitwise (omega arith)
bit_and_step (suc x) y = simp bit_and-bitwise (lowest_digit (λ n. zero) min x y)
