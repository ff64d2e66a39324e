-- ===== src/Examples/Texts.antt =====
-- Runs of src/util.rs.
use wintun_bindings.Base.{
  ℕ, ◌≡◌, ◌∷◌, [], ◌++◌, ◌≤◌, ◌<◌, ◌+◌, ◌-◌, ◌^◌, inl, inr, some, text, length, arith, Text, List,
}
use wintun_bindings.Util.Netmask.{ipv6_netmask_for_prefix}
use wintun_bindings.Util.Netmask.Value.{number, ipv6_netmask_for_prefix-number}
use wintun_bindings.Util.Utf16.{to_wide, decode_utf16, win_pwstr_to_string}
use wintun_bindings.Util.Utf16.RoundTrip.{AreScalars}
use wintun_bindings.Util.Utf8.{win_pstr_to_string}
use wintun_bindings.Util.Utf8.RoundTrip.{to_utf8, strings_read_back}

-- A letter and a character outside the basic plane, which is a surrogate pair.
abbrev name : Text
name = 97 ∷ 128512 ∷ []

scalars : AreScalars name
scalars = ground arith

ipv6_netmask_for_prefix-number_example :
    (60 ≤ 128
      → (mask : List ℕ) × (ipv6_netmask_for_prefix 60 ≡ inr mask)
        × (length mask ≡ 8)
        × (number 0 mask + 2 ^ (128 - 60) ≡ 2 ^ 128))
    × (128 < 60 → ipv6_netmask_for_prefix 60 ≡ inl (text "Prefix value must be between 0 and 128."))
ipv6_netmask_for_prefix-number_example = ipv6_netmask_for_prefix-number 60

strings_read_back_example :
    (decode_utf16 (to_wide name ++ 5 ∷ []) ≡ name)
    × (win_pwstr_to_string (λ s. []) (some (to_wide name ++ 5 ∷ [])) ≡ inr name)
    × (win_pstr_to_string (to_utf8 name ++ 0 ∷ 5 ∷ []) ≡ some name)
strings_read_back_example = strings_read_back (λ s. []) name (5 ∷ []) scalars
