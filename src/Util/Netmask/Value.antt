-- ===== src/Util/Netmask/Value.antt =====
-- An IPv6 netmask as a number of 128 bits: src/util.rs.
use wintun_bindings.Base.{
  ℕ, List, ◌≡◌, Bool, Text, ◌∷◌, ◌*◌, ◌≤◌, true, ◌⊎◌, ◌<◌, ◌+◌, inl, refl, suc, inr, ◌&&◌, length,
  arith, false, [], Bool-cases, ◌==◌, ◌^◌, zero, ==_iff, ◌-◌, text,
}
use wintun_bindings.Util.Netmask.{ipv6_netmask_for_prefix}

-- The number that segments of 16 bits make, the first the highest.
abbrev pub number : ℕ → List ℕ → ℕ
number n [] = n
number n (m ∷ ms) = number (n * 65536 + m) ms

abbrev fits : ℕ → Text ⊎ List ℕ → Bool
fits prefix (inl e) = false
fits prefix (inr mask) = (length mask == 8) && (number 0 mask + 2 ^ (128 - prefix) == 2 ^ 128)

all_fit : ℕ → Bool
all_fit zero = true
all_fit (suc n) = fits n (ipv6_netmask_for_prefix n) && all_fit n

all_fit_sound :
    (n prefix : ℕ)
    → all_fit n ≡ true
    → prefix < n
    → fits prefix (ipv6_netmask_for_prefix prefix) ≡ true
unfolding all_fit
all_fit_sound zero prefix h lt = absurd (omega arith)
all_fit_sound (suc n) prefix h lt = elim (Bool-cases (prefix == n)) [
  | inl same ↦ ground (arith, (==_iff prefix n).0 same)
  | inr other ↦ ground (arith, all_fit_sound n prefix)
]

table : all_fit 129 ≡ true
unfolding all_fit ipv6_netmask_for_prefix
table = refl

-- A prefix up to 128 gives eight segments whose number, as 128 bits, is as many ones as the prefix
-- says and zeros below: 2 ^ 128 - 2 ^ (128 - prefix). A longer prefix is refused.
pub ipv6_netmask_for_prefix-number :
    (prefix : ℕ)
    → (prefix ≤ 128
        → (mask : List ℕ) × (ipv6_netmask_for_prefix prefix ≡ inr mask)
          × (length mask ≡ 8)
          × (number 0 mask + 2 ^ (128 - prefix) ≡ 2 ^ 128))
      × (128 < prefix
          → ipv6_netmask_for_prefix prefix ≡ inl (text "Prefix value must be between 0 and 128."))
unfolding ipv6_netmask_for_prefix
ipv6_netmask_for_prefix-number prefix = (inside, λ h. ground arith)
  where
    read :
        (r : Text ⊎ List ℕ)
        → fits prefix r ≡ true
        → (mask : List ℕ) × (r ≡ inr mask)
          × (length mask ≡ 8)
          × (number 0 mask + 2 ^ (128 - prefix) ≡ 2 ^ 128)
    read (inl e) h = absurd (ground arith)
    read (inr mask) h = (mask, refl, ground arith, ground arith)

    inside :
        prefix ≤ 128
        → (mask : List ℕ) × (ipv6_netmask_for_prefix prefix ≡ inr mask)
          × (length mask ≡ 8)
          × (number 0 mask + 2 ^ (128 - prefix) ≡ 2 ^ 128)
    inside h = read _ (all_fit_sound 129 prefix table (omega arith))
