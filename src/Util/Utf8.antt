-- ===== src/Util/Utf8.antt =====
-- UTF-8 as `win_pstr_to_string` of src/util.rs uses it: a null-terminated string of bytes, which must be
-- valid, as the scalar values of a Rust string.
pub mod RoundTrip
use mathlib.Core.Option
use mathlib.Core.Option.{Option, none, some}
use wintun_bindings.Base.{[], ℕ, List, Text, if◌then◌else◌, ◌*◌, ltb, ◌+◌, ◌-◌, ◌∷◌, ◌==◌, ◌||◌}
use wintun_bindings.Util.Utf16.{until_null}

-- A scalar value of which the first bytes have been read: how many are still to come, the value so far,
-- and the range of the next byte.
pub record Partial : Type 0 where
  pub missing : ℕ
  pub value : ℕ
  pub least : ℕ
  pub most : ℕ

abbrev pub partial : ℕ → ℕ → ℕ → ℕ → Partial
partial missing value least most = record {
  missing = missing;
  value = value;
  least = least;
  most = most;
}

-- What a byte does: it ends a scalar value, leaves one that is not complete, or is not valid.
pub data Read : Type 0 where
  complete : ℕ → Read
  goes_on : Partial → Read
  bad_byte : Read

-- The first byte of a scalar value. A value has no more bytes than it needs, is no surrogate, and not
-- above 0x10ffff.
unfoldable pub first_byte : ℕ → Read
first_byte b =
    if ltb b 0x80
    then complete b
    else if ltb b 0xc2
    then bad_byte
    else if ltb b 0xe0
    then goes_on (partial 1 (b - 0xc0) 0x80 0xbf)
    else if ltb b 0xf0
    then goes_on
        (partial 2 (b - 0xe0) (if b == 0xe0 then 0xa0 else 0x80) (if b == 0xed then 0x9f else 0xbf))
    else if ltb b 0xf5
    then goes_on
        (partial 3 (b - 0xf0) (if b == 0xf0 then 0x90 else 0x80) (if b == 0xf4 then 0x8f else 0xbf))
    else bad_byte

-- A further byte, of which the lower six bits count.
unfoldable pub next_byte : Partial → ℕ → Read
next_byte q b =
    let value = q.value * 64 + (b - 0x80) in
    if ltb b q.least || ltb q.most b
    then bad_byte
    else if q.missing == 1
    then complete value
    else goes_on (partial (q.missing - 1) value 0x80 0xbf)

abbrev pub read_byte : Option Partial → ℕ → Read
read_byte none b = first_byte b
read_byte (some q) b = next_byte q b

-- `str::from_utf8`, from where a scalar value may have been begun.
unfoldable pub from_utf8 : Option Partial → List ℕ → Option Text
from_utf8 none [] = some []
from_utf8 (some q) [] = none
from_utf8 begun (b ∷ bs) = elim (read_byte begun b) [
  | complete c ↦ Option.map (λ s. c ∷ s) (from_utf8 none bs)
  | goes_on q ↦ from_utf8 (some q) bs
  | bad_byte ↦ none
]

-- `win_pstr_to_string`, of the bytes from the pointer on. An error, which is only logged, is none.
unfoldable pub win_pstr_to_string : List ℕ → Option Text
unfolding from_utf8 until_null
win_pstr_to_string bytes = from_utf8 none (until_null bytes)
