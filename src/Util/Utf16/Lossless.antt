-- ===== src/Util/Utf16/Lossless.antt =====
-- UTF-16 that is valid is kept: the file names of src/verify_binary_signature.rs and of src/adapter.rs.
use wintun_bindings.Base.{
  ℕ, ◌<◌, List, [], ◌∷◌, Option, none, some, ◌≡◌, Text, arith, Option-cases, true, Bool-cases, inl,
  inr,
}
use wintun_bindings.Util.Utf16.{
  from_utf16, decode_from, collect, encode_utf16, is_high, is_low, join,
}

-- Units of 16 bits.
abbrev pub AreUnits : List ℕ → Type 0
AreUnits [] = Unit
AreUnits (u ∷ us) = (u < 0x10000) × AreUnits us

-- The units that are read, after a high surrogate that waits for its low one.
abbrev waiting : Option ℕ → List ℕ → List ℕ
waiting none us = us
waiting (some h) us = h ∷ us

abbrev IsWaiting : Option ℕ → Type 0
IsWaiting none = Unit
IsWaiting (some h) = is_high h ≡ true

collect-cons :
    (c : ℕ) (cs : List (Option ℕ)) (s : Text)
    → collect (some c ∷ cs) ≡ some s
    → (s' : Text) × (s ≡ c ∷ s') × (collect cs ≡ some s')
unfolding collect
collect-cons c cs s e = elim (Option-cases (collect cs)) [
  | inl z ↦ ground (arith, z, e)
  | inr (s', z) ↦ (s', ground (arith, z, e), z)
]

encode-decode :
    (h : Option ℕ) (us : List ℕ) (s : Text)
    → IsWaiting h
    → AreUnits us
    → collect (decode_from h us) ≡ some s
    → encode_utf16 s ≡ waiting h us
unfolding decode_from collect encode_utf16
encode-decode none [] s hh hus e = ground (arith, e)
encode-decode (some h) [] s hh hus e = ground (arith, e)
encode-decode none (u ∷ us) s hh (hu, hus) e = elim (Bool-cases (is_high u)) [
  | inl high ↦ encode-decode (some u) us s high hus (ground (arith, high, e))
  | inr plain ↦ elim (Bool-cases (is_low u)) [
    | inl low ↦ absurd (ground (arith, plain, low, e))
    | inr scalar ↦
        let (s', same, e') =
          collect-cons u (decode_from none us) s (ground (arith, plain, scalar, e)) in
        rw same (ground (arith, hu, encode-decode none us s' tt hus e'))
  ]
]
encode-decode (some h) (u ∷ us) s hh (hu, hus) e = elim (Bool-cases (is_low u)) [
  | inl low ↦
      let (s', same, e') =
        collect-cons (join h u) (decode_from none us) s (ground (arith, low, e)) in
      rw same (ground (arith, hh, low, encode-decode none us s' tt hus e'))
  | inr alone ↦ absurd (ground (arith, alone, e))
]

-- Units that are valid UTF-16 are what their text is written as.
pub encode_utf16-from_utf16 :
    (us : List ℕ) (s : Text) → AreUnits us → from_utf16 us ≡ some s → encode_utf16 s ≡ us
unfolding from_utf16
encode_utf16-from_utf16 us s h e = encode-decode none us s tt h e
