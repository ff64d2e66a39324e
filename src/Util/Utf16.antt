-- ===== src/Util/Utf16.antt =====
-- UTF-16 as src/util.rs, src/ffi.rs and src/adapter.rs use it: null-terminated strings of 16-bit units
-- to and from the scalar values of a Rust string.
pub mod RoundTrip
pub mod Lossless
use wintun_bindings.Base.{
  map, ℕ, ◌+◌, ◌-◌, ◌*◌, ◌/◌, ◌%◌, Bool, Text, List, leb, ◌∷◌, ◌++◌, if◌then◌else◌, [], ◌⊎◌, ◌&&◌,
  ◌==◌, inl, ltb, text, inr,
}
use wintun_bindings.Failure.{Error, string}
use mathlib.Core.Option.{Option, none, some}
use mathlib.Core.Option

abbrev pub is_high : ℕ → Bool
is_high u = leb 0xd800 u && ltb u 0xdc00

abbrev pub is_low : ℕ → Bool
is_low u = leb 0xdc00 u && ltb u 0xe000

abbrev pub join : ℕ → ℕ → ℕ
join u v = 0x10000 + (u - 0xd800) * 0x400 + (v - 0xdc00)

-- `str::encode_utf16`
unfoldable pub encode_utf16 : Text → List ℕ
encode_utf16 [] = []
encode_utf16 (c ∷ s) =
    let rest = encode_utf16 s in
    if ltb c 0x10000
    then c ∷ rest
    else (0xd800 + (c - 0x10000) / 0x400) ∷ (0xdc00 + (c - 0x10000) % 0x400) ∷ rest

-- `encode_utf16().chain(once(0)).collect()`
unfoldable pub to_wide : Text → List ℕ
unfolding encode_utf16
to_wide s = encode_utf16 s ++ 0 ∷ []

-- A string of units with each surrogate that stands alone marked by `none`: what
-- `char::decode_utf16` gives. The first argument is a high surrogate that waits for its low one.
unfoldable pub decode_from : Option ℕ → List ℕ → List (Option ℕ)
decode_from none [] = []
decode_from (some h) [] = none ∷ []
decode_from none (u ∷ us) =
    let after_high = decode_from (some u) us in
    let rest = decode_from none us in
    if is_high u then after_high else if is_low u then none ∷ rest else some u ∷ rest
decode_from (some h) (u ∷ us) =
    let after_high = decode_from (some u) us in
    let rest = decode_from none us in
    if is_low u
    then some (join h u) ∷ rest
    else if is_high u
    then none ∷ after_high
    else none ∷ some u ∷ rest

unfoldable pub collect : List (Option ℕ) → Option Text
collect [] = some []
collect (none ∷ cs) = none
collect (some c ∷ cs) = Option.map (λ s. c ∷ s) (collect cs)

-- `String::from_utf16`, and `OsString::from_wide(..).into_string()`
unfoldable pub from_utf16 : List ℕ → Option Text
unfolding decode_from collect
from_utf16 us = collect (decode_from none us)

abbrev pub or_replacement : Option ℕ → ℕ
or_replacement none = 0xfffd
or_replacement (some c) = c

-- `String::from_utf16_lossy`
unfoldable pub from_utf16_lossy : List ℕ → Text
unfolding decode_from
from_utf16_lossy us = map or_replacement (decode_from none us)

-- The units before the first 0: the loop of `win_pwstr_to_string`, and the slice of `decode_utf16`.
unfoldable pub until_null : List ℕ → List ℕ
until_null [] = []
until_null (u ∷ us) = let rest = until_null us in if u == 0 then [] else u ∷ rest

-- `decode_utf16`
unfoldable pub decode_utf16 : List ℕ → Text
unfolding until_null from_utf16_lossy
decode_utf16 us = from_utf16_lossy (until_null us)

-- `win_pwstr_to_string`, of a null pointer or of the units from the pointer on. `debug` is the
-- text that `{:?}` gives of a string that is not valid.
unfoldable pub win_pwstr_to_string : (List ℕ → Text) → Option (List ℕ) → Error ⊎ Text
unfolding until_null from_utf16
win_pwstr_to_string debug none = inl (string (text "Null pointer received"))
win_pwstr_to_string debug (some us) = elim (from_utf16 (until_null us)) [
  | some s ↦ inr s
  | none ↦ inl (string (text "Invalid UTF-8 sequence: " ++ debug (until_null us)))
]
