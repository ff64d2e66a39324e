-- ===== src/Util/Utf8/RoundTrip.antt =====
-- Rust strings to UTF-8 and back: src/util.rs.
use mathlib.Core.Option
use wintun_bindings.Base.{
  ℕ, Text, List, ◌∷◌, none, ◌++◌, ◌≡◌, if◌then◌else◌, some, arith, ltb, ◌+◌, [], ◌/◌, refl, ◌%◌,
  ◌≤◌, ◌<◌, ◌*◌, suc, ◌==◌, ◌⊎◌, Bool-cases, ◌∙◌, ap, inl, inr,
}
use wintun_bindings.Util.Utf16.{until_null, decode_utf16, to_wide, win_pwstr_to_string}
use wintun_bindings.Util.Utf16.RoundTrip.{IsScalar, AreScalars, read_back-to_wide}
use wintun_bindings.Util.Utf8.{
  from_utf8, next_byte, first_byte, partial, goes_on, complete, win_pstr_to_string, Partial,
}

-- `str::as_bytes`
unfoldable pub to_utf8 : Text → List ℕ
to_utf8 [] = []
to_utf8 (c ∷ s) =
    let rest = to_utf8 s in
    if ltb c 0x80
    then c ∷ rest
    else if ltb c 0x800
    then (0xc0 + c / 64) ∷ (0x80 + c % 64) ∷ rest
    else if ltb c 0x10000
    then (0xe0 + c / 4096) ∷ (0x80 + c / 64 % 64) ∷ (0x80 + c % 64) ∷ rest
    else (0xf0 + c / 262144)
      ∷ (0x80 + c / 4096 % 64)
      ∷ (0x80 + c / 64 % 64)
      ∷ (0x80 + c % 64)
      ∷ rest

until_null-to_utf8 :
    (s : Text) (rest : List ℕ) → AreScalars s → until_null (to_utf8 s ++ 0 ∷ rest) ≡ to_utf8 s
unfolding until_null to_utf8
until_null-to_utf8 [] rest h = refl
until_null-to_utf8 (c ∷ s) rest (hc, hs) = ground (arith, until_null-to_utf8 s rest hs)

first_of_two : (h : ℕ) → 2 ≤ h → h < 32 → first_byte (0xc0 + h) ≡ goes_on (partial 1 h 0x80 0xbf)
unfolding first_byte
first_of_two h lo hi = ground arith

first_of_three :
    (h : ℕ)
    → h < 16
    → first_byte (0xe0 + h)
      ≡ goes_on (partial 2 h (if h == 0 then 0xa0 else 0x80) (if h == 13 then 0x9f else 0xbf))
unfolding first_byte
first_of_three h hi = ground arith

first_of_four :
    (h : ℕ)
    → h < 5
    → first_byte (0xf0 + h)
      ≡ goes_on (partial 3 h (if h == 0 then 0x90 else 0x80) (if h == 4 then 0x8f else 0xbf))
unfolding first_byte
first_of_four h hi = ground arith

last_byte :
    (v least most l : ℕ)
    → least ≤ 0x80 + l
    → 0x80 + l ≤ most
    → next_byte (partial 1 v least most) (0x80 + l) ≡ complete (v * 64 + l)
unfolding next_byte
last_byte v least most l lo hi = ground arith

middle_byte :
    (n v least most l : ℕ)
    → least ≤ 0x80 + l
    → 0x80 + l ≤ most
    → next_byte (partial (suc (suc n)) v least most) (0x80 + l)
      ≡ goes_on (partial (suc n) (v * 64 + l) 0x80 0xbf)
unfolding next_byte
middle_byte n v least most l lo hi = ground arith

-- A scalar value in front is read as itself.
abbrev Reads : List ℕ → ℕ → List ℕ → Type 0
Reads bytes c bs = from_utf8 none (bytes ++ bs) ≡ Option.map (λ s. c ∷ s) (from_utf8 none bs)

starts :
    (b : ℕ) (q : Partial) (bs : List ℕ)
    → first_byte b ≡ goes_on q
    → from_utf8 none (b ∷ bs) ≡ from_utf8 (some q) bs
unfolding from_utf8
starts b q bs e = ground (arith, e)

continues :
    (b : ℕ) (q q' : Partial) (bs : List ℕ)
    → next_byte q b ≡ goes_on q'
    → from_utf8 (some q) (b ∷ bs) ≡ from_utf8 (some q') bs
unfolding from_utf8
continues b q q' bs e = ground (arith, e)

ends :
    (b c c' : ℕ) (q : Partial) (bs : List ℕ)
    → next_byte q b ≡ complete c
    → c ≡ c'
    → from_utf8 (some q) (b ∷ bs) ≡ Option.map (λ s. c' ∷ s) (from_utf8 none bs)
unfolding from_utf8
ends b c c' q bs e same = ground (arith, e, same)

one_byte : (c : ℕ) (bs : List ℕ) → c < 0x80 → Reads (c ∷ []) c bs
unfolding from_utf8 first_byte
one_byte c bs h = ground arith

two_bytes :
    (c : ℕ) (bs : List ℕ)
    → 0x80 ≤ c
    → c < 0x800
    → Reads ((0xc0 + c / 64) ∷ (0x80 + c % 64) ∷ []) c bs
two_bytes c bs lo hi =
    let whole : c / 64 * 64 + c % 64 ≡ c = omega arith in
    starts (0xc0 + c / 64) (partial 1 (c / 64) 0x80 0xbf) ((0x80 + c % 64) ∷ bs)
      (first_of_two (c / 64) (omega arith) (omega arith))
    ∙ ends (0x80 + c % 64) (c / 64 * 64 + c % 64) c (partial 1 (c / 64) 0x80 0xbf) bs
        (last_byte (c / 64) 0x80 0xbf (c % 64) (omega arith) (omega arith)) whole

three_bytes :
    (c : ℕ) (bs : List ℕ)
    → 0x800 ≤ c
    → c < 0x10000
    → (c < 0xd800) ⊎ (0xdfff < c)
    → Reads ((0xe0 + c / 4096) ∷ (0x80 + c / 64 % 64) ∷ (0x80 + c % 64) ∷ []) c bs
three_bytes c bs lo hi scalar =
    let h = c / 4096 in
    let m = c / 64 % 64 in
    let least : ℕ = if h == 0 then 0xa0 else 0x80 in
    let most : ℕ = if h == 13 then 0x9f else 0xbf in
    let whole : (h * 64 + m) * 64 + c % 64 ≡ c = omega arith in
    let above : least ≤ 0x80 + m = ground (arith, scalar) in
    let below : 0x80 + m ≤ most = ground (arith, scalar) in
    starts (0xe0 + h) (partial 2 h least most) ((0x80 + m) ∷ (0x80 + c % 64) ∷ bs)
      (first_of_three h (omega arith))
    ∙ continues (0x80 + m) (partial 2 h least most) (partial 1 (h * 64 + m) 0x80 0xbf)
        ((0x80 + c % 64) ∷ bs) (middle_byte 0 h least most m above below)
    ∙ ends (0x80 + c % 64) ((h * 64 + m) * 64 + c % 64) c (partial 1 (h * 64 + m) 0x80 0xbf) bs
        (last_byte (h * 64 + m) 0x80 0xbf (c % 64) (omega arith) (omega arith)) whole

four_bytes :
    (c : ℕ) (bs : List ℕ)
    → 0x10000 ≤ c
    → c < 0x110000
    → Reads
        ((0xf0 + c / 262144) ∷ (0x80 + c / 4096 % 64) ∷ (0x80 + c / 64 % 64) ∷ (0x80 + c % 64) ∷ [])
        c
        bs
four_bytes c bs lo hi =
    let h = c / 262144 in
    let m = c / 4096 % 64 in
    let l = c / 64 % 64 in
    let least : ℕ = if h == 0 then 0x90 else 0x80 in
    let most : ℕ = if h == 4 then 0x8f else 0xbf in
    let whole : ((h * 64 + m) * 64 + l) * 64 + c % 64 ≡ c = omega arith in
    let above : least ≤ 0x80 + m = ground arith in
    let below : 0x80 + m ≤ most = ground arith in
    starts (0xf0 + h) (partial 3 h least most) ((0x80 + m) ∷ (0x80 + l) ∷ (0x80 + c % 64) ∷ bs)
      (first_of_four h (omega arith))
    ∙ continues (0x80 + m) (partial 3 h least most) (partial 2 (h * 64 + m) 0x80 0xbf)
        ((0x80 + l) ∷ (0x80 + c % 64) ∷ bs) (middle_byte 1 h least most m above below)
    ∙ continues (0x80 + l) (partial 2 (h * 64 + m) 0x80 0xbf)
        (partial 1 ((h * 64 + m) * 64 + l) 0x80 0xbf) ((0x80 + c % 64) ∷ bs)
        (middle_byte 0 (h * 64 + m) 0x80 0xbf l (omega arith) (omega arith))
    ∙ ends (0x80 + c % 64) (((h * 64 + m) * 64 + l) * 64 + c % 64) c
        (partial 1 ((h * 64 + m) * 64 + l) 0x80 0xbf) bs
        (last_byte ((h * 64 + m) * 64 + l) 0x80 0xbf (c % 64) (omega arith) (omega arith)) whole

from_utf8-cons :
    (c : ℕ) (s : Text)
    → IsScalar c
    → from_utf8 none (to_utf8 (c ∷ s)) ≡ Option.map (λ t. c ∷ t) (from_utf8 none (to_utf8 s))
unfolding to_utf8
from_utf8-cons c s (above, below, scalar) = elim (Bool-cases (ltb c 0x80)) [
  | inl one ↦ rw one (one_byte c (to_utf8 s) (ground (arith, one)))
  | inr more ↦ elim (Bool-cases (ltb c 0x800)) [
    | inl two ↦
        rw (more, two) (two_bytes c (to_utf8 s) (ground (arith, more)) (ground (arith, two)))
    | inr more' ↦ elim (Bool-cases (ltb c 0x10000)) [
      | inl three ↦
          rw (more, more', three)
            (three_bytes c (to_utf8 s) (ground (arith, more')) (ground (arith, three)) scalar)
      | inr four ↦ rw (more, more', four) (four_bytes c (to_utf8 s) (ground (arith, four)) below)
    ]
  ]
]

from_utf8-to_utf8 : (s : Text) → AreScalars s → from_utf8 none (to_utf8 s) ≡ some s
unfolding from_utf8 to_utf8
from_utf8-to_utf8 [] h = refl
from_utf8-to_utf8 (c ∷ s) (hc, hs) =
    from_utf8-cons c s hc ∙ ap (Option.map (λ t. c ∷ t)) (from_utf8-to_utf8 s hs)

win_pstr_to_string-to_utf8 :
    (s : Text) (rest : List ℕ) → AreScalars s → win_pstr_to_string (to_utf8 s ++ 0 ∷ rest) ≡ some s
unfolding win_pstr_to_string
win_pstr_to_string-to_utf8 s rest h =
    ap (from_utf8 none) (until_null-to_utf8 s rest h) ∙ from_utf8-to_utf8 s h

-- A string without the character 0 is read back as itself, whatever follows its null terminator: written
-- as UTF-16 by `decode_utf16`, and by `win_pwstr_to_string` without an error, and written as UTF-8 by
-- `win_pstr_to_string`.
pub strings_read_back :
    (debug : List ℕ → Text) (s : Text) (rest : List ℕ)
    → AreScalars s
    → (decode_utf16 (to_wide s ++ rest) ≡ s)
      × (win_pwstr_to_string debug (some (to_wide s ++ rest)) ≡ inr s)
      × (win_pstr_to_string (to_utf8 s ++ 0 ∷ rest) ≡ some s)
strings_read_back debug s rest h =
    let (lossy, strict) = read_back-to_wide debug s rest h in
    (lossy, strict, win_pstr_to_string-to_utf8 s rest h)
