-- ===== src/Util/Utf16/RoundTrip.antt =====
-- Rust strings to UTF-16 and back: src/util.rs, src/ffi.rs.
use mathlib.Core.List.{append_assoc}
use wintun_bindings.Base.{
  ℕ, ◌<◌, Text, ◌⊎◌, ◌∷◌, none, [], List, ◌++◌, ◌≡◌, map, arith, refl, some, ap, inr,
}
use wintun_bindings.Util.Utf16.{
  from_utf16, decode_from, until_null, encode_utf16, decode_utf16, collect, win_pwstr_to_string,
  or_replacement, to_wide,
}

-- A scalar value other than 0.
abbrev pub IsScalar : ℕ → Type 0
IsScalar c = (0 < c) × (c < 0x110000) × ((c < 0xd800) ⊎ (0xdfff < c))

abbrev pub AreScalars : Text → Type 0
AreScalars [] = Unit
AreScalars (c ∷ s) = IsScalar c × AreScalars s

until_null-to_wide :
    (s : Text) (rest : List ℕ)
    → AreScalars s
    → until_null (encode_utf16 s ++ 0 ∷ rest) ≡ encode_utf16 s
unfolding until_null encode_utf16
until_null-to_wide [] rest h = refl
until_null-to_wide (c ∷ s) rest (hc, hs) = ground (arith, until_null-to_wide s rest hs)

decode-encode : (s : Text) → AreScalars s → decode_from none (encode_utf16 s) ≡ map some s
unfolding decode_from encode_utf16
decode-encode [] h = refl
decode-encode (c ∷ s) (hc, hs) = ground (arith, decode-encode s hs)

map-or_replacement : (s : Text) → map or_replacement (map some s) ≡ s
map-or_replacement [] = refl
map-or_replacement (c ∷ s) = ap (λ t. c ∷ t) (map-or_replacement s)

collect-map : (s : Text) → collect (map some s) ≡ some s
unfolding collect
collect-map [] = refl
collect-map (c ∷ s) = rw (collect-map s, collect)

decode_utf16-to_wide :
    (s : Text) (rest : List ℕ) → AreScalars s → decode_utf16 (to_wide s ++ rest) ≡ s
unfolding decode_utf16 to_wide
decode_utf16-to_wide s rest h =
    rw (append_assoc, until_null-to_wide s rest h, decode-encode s h) (map-or_replacement s)

win_pwstr_to_string-to_wide :
    (debug : List ℕ → Text) (s : Text) (rest : List ℕ)
    → AreScalars s
    → win_pwstr_to_string debug (some (to_wide s ++ rest)) ≡ inr s
unfolding win_pwstr_to_string to_wide
win_pwstr_to_string-to_wide debug s rest h =
    let units : until_null (to_wide s ++ rest) ≡ encode_utf16 s =
      rw append_assoc (until_null-to_wide s rest h) in
    let decoded : from_utf16 (encode_utf16 s) ≡ some s = rw (decode-encode s h) (collect-map s) in
    ground (arith, units, decoded)

pub read_back-to_wide :
    (debug : List ℕ → Text) (s : Text) (rest : List ℕ)
    → AreScalars s
    → (decode_utf16 (to_wide s ++ rest) ≡ s)
      × (win_pwstr_to_string debug (some (to_wide s ++ rest)) ≡ inr s)
read_back-to_wide debug s rest h =
    (decode_utf16-to_wide s rest h, win_pwstr_to_string-to_wide debug s rest h)
