-- ===== src/Util/Netmask.antt =====
-- src/util.rs: the netmask of an IPv6 prefix, as the eight segments of an address.
pub mod Value
use wintun_bindings.Base.{
  ℕ, List, suc, Text, if◌then◌else◌, ◌⊎◌, ltb, set, ◌*◌, inl, ◌+◌, ◌^◌, ◌-◌, text, leb, ◌%◌, inr,
  zero, ◌∷◌, [],
}

-- The loop over whole segments, on fuel for its rounds: the mask, the next index and what is left.
unfoldable pub fill : ℕ → List ℕ → ℕ → ℕ → List ℕ × ℕ × ℕ
fill zero mask i remaining = (mask, i, remaining)
fill (suc fuel) mask i remaining =
    let more = fill fuel (set mask i 0xffff) (i + 1) (remaining - 16) in
    if leb 16 remaining then more else (mask, i, remaining)

-- The rest of the prefix, in a segment of 16 bits.
abbrev fill_rest : List ℕ × ℕ × ℕ → List ℕ
fill_rest (mask, i, remaining) =
    if ltb 0 remaining then set mask i ((0xffff * 2 ^ (16 - remaining)) % 2 ^ 16) else mask

-- The prefix is a `u8`, so that sixteen rounds are enough.
unfoldable pub ipv6_netmask_for_prefix : ℕ → Text ⊎ List ℕ
unfolding fill
ipv6_netmask_for_prefix prefix =
    if ltb 128 prefix
    then inl (text "Prefix value must be between 0 and 128.")
    else inr (fill_rest (fill 16 (0 ∷ 0 ∷ 0 ∷ 0 ∷ 0 ∷ 0 ∷ 0 ∷ 0 ∷ []) 0 prefix))
