-- ===== src/Base/Bits.antt =====
-- `|` of numbers whose bits do not overlap.
use Prim.Native.Nat.{
  ℕ, zero, suc, ◌+◌, ◌*◌, ◌/◌, ◌%◌, ◌^◌, ◌≤◌, ◌<◌, max, bit_or, digits, bit_or-bitwise,
}
use mathlib.Core.Path.{◌≡◌, refl, ap}
use native.Mathlib.Omega.{arith}
use native.Mathlib.Nat.{pow-suc}

-- The native operation by its binary digits, on fuel for the first number.
abbrev or_on : ℕ → ℕ → ℕ → ℕ
or_on fuel = digits (λ rest. rest) max fuel

or_on_enough : (fuel more a b : ℕ) → a ≤ fuel → a ≤ more → or_on fuel a b ≡ or_on more a b
or_on_enough zero zero a b h k = refl
or_on_enough zero (suc more) zero b h k = refl
or_on_enough zero (suc more) (suc a) b h k = absurd (omega arith)
or_on_enough (suc fuel) zero zero b h k = refl
or_on_enough (suc fuel) zero (suc a) b h k = absurd (omega arith)
or_on_enough (suc fuel) (suc more) zero b h k = refl
or_on_enough (suc fuel) (suc more) (suc a) b h k =
    omega (arith, or_on_enough fuel more (suc a / 2) (b / 2) (omega arith) (omega arith))

lowest_bit : (a b : ℕ) → bit_or a b ≡ bit_or (a / 2) (b / 2) * 2 + max (a % 2) (b % 2)
lowest_bit zero b = omega (arith, bit_or-bitwise 0 b, bit_or-bitwise 0 (b / 2))
lowest_bit (suc a) b = omega (
  arith,
  bit_or-bitwise (suc a) b,
  bit_or-bitwise (suc a / 2) (b / 2),
  or_on_enough a (suc a / 2) (suc a / 2) (b / 2) (omega arith) (omega arith),
)

bit_or_nothing : (bound a : ℕ) → a ≤ bound → bit_or a 0 ≡ a
bit_or_nothing bound zero h = refl
bit_or_nothing zero (suc a) h = absurd (omega arith)
bit_or_nothing (suc bound) (suc a) h =
    omega (arith, lowest_bit (suc a) 0, bit_or_nothing bound (suc a / 2) (omega arith))

shifted : (x k : ℕ) → x * 2 ^ suc k ≡ 2 * (x * 2 ^ k)
shifted x k = omega (arith, ap (λ (t : ℕ). x * t) (pow-suc 2 k))

pub bit_or_disjoint : (k x y : ℕ) → y < 2 ^ k → bit_or (x * 2 ^ k) y ≡ x * 2 ^ k + y
bit_or_disjoint zero x y h = ground (arith, bit_or_nothing x x (omega arith))
bit_or_disjoint (suc k) x y h = ground (
  arith,
  shifted x k,
  lowest_bit (x * 2 ^ suc k) y,
  bit_or_disjoint k x (y / 2) (omega (arith, pow-suc 2 k)),
)
