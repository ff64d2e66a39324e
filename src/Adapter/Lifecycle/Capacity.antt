-- ===== src/Adapter/Lifecycle/Capacity.antt =====
-- The capacities that `validate_capacity` of src/adapter.rs accepts.
use wintun_bindings.Adapter.Lifecycle.{count_ones, validate_capacity, is_power_of_two}
use wintun_bindings.Base.{
  suc, inl, ok, inr, true, ℕ, ◌≡◌, ◌<◌, ◌^◌, arith, ◌/◌, zero, Bool-cases, ◌%◌, ◌==◌, ◌↔◌, ◌≤◌,
  refl, ==_iff,
}
use wintun_bindings.System.{World}
use native.Mathlib.Nat.{pow-suc}
use native.Mathlib.Decide.{dec_le}

count_ones-zero : (width n : ℕ) → count_ones width n ≡ 0 → n < 2 ^ width → n ≡ 0
unfolding count_ones
count_ones-zero zero n e h = omega arith
count_ones-zero (suc width) n e h =
    omega (arith, count_ones-zero width (n / 2) (omega arith) (omega (arith, pow-suc 2 width)))

count_ones-one :
    (width n : ℕ) → count_ones width n ≡ 1 → n < 2 ^ width → (k : ℕ) × (k < width) × (n ≡ 2 ^ k)
unfolding count_ones
count_ones-one zero n e h = absurd (ground arith)
count_ones-one (suc width) n e h = elim (Bool-cases (n % 2 == 1)) [
  | inl odd ↦
      let half : n / 2 ≡ 0 =
        count_ones-zero width (n / 2) (ground arith) (omega (arith, pow-suc 2 width)) in
      (0, omega arith, ground arith)
  | inr even ↦
      let (k, lt, e') =
        count_ones-one width (n / 2) (ground arith) (omega (arith, pow-suc 2 width)) in
      (suc k, omega arith, ground (arith, pow-suc 2 k))
]

count_ones_none : (width : ℕ) → count_ones width 0 ≡ 0
unfolding count_ones
count_ones_none zero = refl
count_ones_none (suc width) = omega (arith, count_ones_none width)

count_ones-pow : (width k : ℕ) → k < width → count_ones width (2 ^ k) ≡ 1
unfolding count_ones
count_ones-pow zero k h = elim h [ ]
count_ones-pow (suc width) zero h = omega (arith, count_ones_none width)
count_ones-pow (suc width) (suc k) h =
    let half : 2 ^ suc k / 2 ≡ 2 ^ k = omega (arith, pow-suc 2 k) in
    rw half (omega (arith, pow-suc 2 k, count_ones-pow width k (omega arith)))

is_power_of_two_iff :
    (n : ℕ) → n < 2 ^ 32 → (is_power_of_two n ≡ true) ↔ ((k : ℕ) × (k < 32) × (n ≡ 2 ^ k))
unfolding is_power_of_two
is_power_of_two_iff n h = (
  λ e. count_ones-one 32 n ((==_iff _ _).0 e) h,
  λ (k, lt, e). (==_iff _ _).1 (rw e (count_ones-pow 32 k lt)),
)

pow_mono : (j k : ℕ) → j ≤ k → 2 ^ j ≤ 2 ^ k
pow_mono zero zero h = omega arith
pow_mono zero (suc k) h = omega (arith, pow-suc 2 k, pow_mono zero k (omega arith))
pow_mono (suc j) zero h = absurd (omega arith)
pow_mono (suc j) (suc k) h = omega (arith, pow-suc 2 j, pow-suc 2 k, pow_mono j k (omega arith))

-- `validate_capacity` accepts a 32-bit capacity exactly if it is a power of two from 2 ^ 17 to
-- 2 ^ 26. Whatever it answers, it calls nothing and changes nothing.
pub validate_capacity_iff :
    (capacity : ℕ) (w : World)
    → capacity < 2 ^ 32
    → ((validate_capacity capacity w).1 ≡ w)
      × ((validate_capacity capacity w).0 ≡ ok tt
          ↔ ((k : ℕ) × (17 ≤ k) × (k ≤ 26) × (capacity ≡ 2 ^ k)))
unfolding validate_capacity
validate_capacity_iff capacity w h = (ground arith, (accepted, accepts))
  where
    accepted :
        (validate_capacity capacity w).0 ≡ ok tt
        → (k : ℕ) × (17 ≤ k) × (k ≤ 26) × (capacity ≡ 2 ^ k)
    accepted e =
        let (k, lt, same) = (is_power_of_two_iff capacity h).0 (ground arith) in
        (
          k,
          elim (dec_le 17 k) [
            | yes le ↦ le
            | no gt ↦ absurd (ground (arith, pow_mono k 16 (omega arith)))
          ],
          elim (dec_le k 26) [
            | yes le ↦ le
            | no gt ↦ absurd (ground (arith, pow_mono 27 k (omega arith)))
          ],
          same,
        )

    accepts :
        ((k : ℕ) × (17 ≤ k) × (k ≤ 26) × (capacity ≡ 2 ^ k))
        → (validate_capacity capacity w).0 ≡ ok tt
    accepts (k, lo, hi, e) =
        let power = (is_power_of_two_iff capacity h).1 (k, omega arith, e) in
        ground (arith, power, pow_mono 17 k lo, pow_mono k 26 hi)
