-- ===== src/Util/InterfaceInfo.antt =====
-- src/util.rs: the interfaces that NDIS knows, with the GUID in the name of each.
pub mod Guids
use wintun_bindings.Base.{
  ℕ, ◌+◌, ◌*◌, ◌/◌, Bool, true, false, List, [], ◌∷◌, ◌++◌, Option, none, some, inl, inr, Text,
  text, ◌==◌, ◌||◌, not, leb, if◌then◌else◌, get_elem?,
}
use wintun_bindings.Failure.{Error, io, string}
use wintun_bindings.System.{M, ◌>>=◌, fail, panics, observe, map_err, Trace, Platform}
use wintun_bindings.Util.FormatMessage.{Messages, format_message}
use wintun_bindings.Util.Interfaces.{walk}
use wintun_bindings.Util.Utf16.{win_pwstr_to_string}

-- `IP_ADAPTER_INDEX_MAP`. The name is the units from its first one on, to where memory is readable.
pub record IndexMap : Type 0 where
  pub index : ℕ
  pub name : List ℕ

-- The two calls of `GetInterfaceInfo`: the size in bytes that the first asks for, the result of each
-- and, for a buffer of a size, what the second has written.
pub record InfoApi : Type 0 where
  pub first_result : Trace → ℕ
  pub wanted_len : Trace → ℕ
  pub second_result : Trace → ℕ → ℕ
  pub interfaces : Trace → ℕ → List IndexMap

-- `buf.len() * size_of::<u32>()`, for the vector of `buf_len / size_of::<u32>() + 1` elements.
unfoldable pub buf_bytes : ℕ → ℕ
buf_bytes buf_len = (buf_len / 4 + 1) * 4

-- A character in front of the first part.
abbrev pub cons_head : ℕ → List Text → List Text
cons_head x [] = (x ∷ []) ∷ []
cons_head x (part ∷ parts) = (x ∷ part) ∷ parts

-- `s.split(c)`
unfoldable pub split : ℕ → Text → List Text
split c [] = [] ∷ []
split c (x ∷ xs) = let parts = split c xs in if x == c then [] ∷ parts else cons_head x parts

-- `name.split('{').nth(1).and_then(|s| s.split('}').next())`
unfoldable pub guid_of_name : Text → Option Text
unfolding split
guid_of_name name = elim (get_elem? (split 123 name) 1) [
  | some s ↦ get_elem? (split 125 s) 0
  | none ↦ none
]

module _ (p : Platform) (m : Messages) (debug : List ℕ → Text) (info : InfoApi) where
  -- `get_interface_info_sys`. NO_ERROR is 0 and ERROR_INSUFFICIENT_BUFFER is 122.
  unfoldable pub get_interface_info_sys : {S : Type 0} → (IndexMap → S → Bool × S) → S → M Error S
  unfolding format_message walk buf_bytes
  get_interface_info_sys callback s = do
    first ← observe info.first_result
    buf_len ← observe info.wanted_len
    if not ((first == 0) || (first == 122))
        then (do
          err_msg ← map_err io (format_message p m first)
          fail (string (text "GetInterfaceInfo failed: " ++ err_msg)))
        else if not (leb buf_len (buf_bytes buf_len))
        then panics
        else (do
          second ← observe (λ t. info.second_result t buf_len)
          if second == 0 then observe (λ t. walk callback (info.interfaces t buf_len) s) else (do
            err_msg ← map_err io (format_message p m second)
            fail (string (text "GetInterfaceInfo failed a second time: " ++ err_msg))))

  -- The closure of `get_interface_info`, on the vector of those found before.
  unfoldable pub push_interface : IndexMap → List (ℕ × Text) → Bool × List (ℕ × Text)
  unfolding win_pwstr_to_string guid_of_name
  push_interface interface v = elim (win_pwstr_to_string debug (some interface.name)) [
    | inl e ↦ (false, v)
    | inr name ↦ elim (guid_of_name name) [
      | some guid ↦ (true, v ++ (interface.index, guid) ∷ [])
      | none ↦ (false, v)
    ]
  ]

  unfoldable pub get_interface_info : M Error (List (ℕ × Text))
  unfolding get_interface_info_sys push_interface
  get_interface_info = get_interface_info_sys push_interface []
