-- ===== src/Adapter/Addresses/Walk.antt =====
-- What `get_addresses` and `get_gateways` of src/adapter.rs find.
use mathlib.Core.List.{append_assoc, append-nil, map}
use wintun_bindings.Adapter.{Adapter}
use wintun_bindings.Adapter.Addresses.{on_name, readable, sockaddrs, get_addresses, get_gateways}
use wintun_bindings.Base.{
  ℕ, inl, inr, ◌≡◌, true, none, some, List, [], ◌∷◌, ◌++◌, Text, text_eq, ok, if◌then◌else◌, arith,
  refl, ◌⊎◌, Sum-cases, ap, ◌∙◌,
}
use wintun_bindings.Ffi.{IpHelper, guid_to_win_style_string}
use wintun_bindings.System.{Platform, World}
use wintun_bindings.Util.FormatMessage.{Messages}
use wintun_bindings.Util.Interfaces.{AdapterAddresses, AdapterTable, walk, get_adapters_addresses}
use wintun_bindings.Util.SockAddr.{SockAddr, retrieve_ipaddr, IpAddr}
use wintun_bindings.Util.Utf8.{win_pstr_to_string}

-- The values among results, in their order.
abbrev pub values : {E A : Type 0} → List (E ⊎ A) → List A
values [] = []
values (inl e ∷ rs) = values rs
values (inr a ∷ rs) = a ∷ values rs

-- The addresses among socket addresses that can be read.
abbrev pub read_all : List SockAddr → List IpAddr
read_all as' = values (map retrieve_ipaddr as')

readable-eq-read_all : (as' : List SockAddr) → readable as' ≡ read_all as'
unfolding readable
readable-eq-read_all [] = refl
readable-eq-read_all (a ∷ as') = elim (Sum-cases (retrieve_ipaddr a)) [
  | inl (e, z) ↦ ground (arith, z, readable-eq-read_all as')
  | inr (i, z) ↦ ground (arith, z, readable-eq-read_all as')
]

sockaddrs-eq-map : (us : List (SockAddr × ℕ)) → sockaddrs us ≡ map (λ u. u.0) us
sockaddrs-eq-map [] = refl
sockaddrs-eq-map (u ∷ us) = ap (λ xs. u.0 ∷ xs) (sockaddrs-eq-map us)

-- The adapters up to the first whose name is no text, of those the ones with the name, and what
-- `pick` takes from each.
abbrev pub named : (AdapterAddresses → List IpAddr) → Text → List AdapterAddresses → List IpAddr
named pick name [] = []
named pick name (a ∷ as') = elim (win_pstr_to_string a.adapter_name) [
  | none ↦ []
  | some n ↦ (if text_eq n name then pick a else []) ++ named pick name as'
]

named-same :
    (pick pick' : AdapterAddresses → List IpAddr) (name : Text) (as' : List AdapterAddresses)
    → ((a : AdapterAddresses) → pick a ≡ pick' a)
    → named pick name as' ≡ named pick' name as'
named-same pick pick' name [] same = refl
named-same pick pick' name (a ∷ as') same =
    ground (arith, same a, named-same pick pick' name as' same)

walk-named :
    (pick : AdapterAddresses → List IpAddr) (name : Text) (as' : List AdapterAddresses)
    (found : List IpAddr)
    → walk (on_name name (λ a f. (true, f ++ pick a))) as' found ≡ found ++ named pick name as'
unfolding walk
walk-named pick name [] found = rw append-nil
walk-named pick name (a ∷ as') found = ground (
  arith,
  append-nil found,
  append_assoc found (pick a) (named pick name as'),
  walk-named pick name as' (found ++ pick a),
  walk-named pick name as' found,
)

module _ (p : Platform) (ip : IpHelper) (m : Messages) (table : AdapterTable) where
  -- Where Windows answers both calls, and the GUID of the adapter is a text, `get_addresses` gives
  -- the readable unicast addresses and `get_gateways` the readable gateways of the adapters of that
  -- name, in the order of Windows, up to the first adapter whose name is no text.
  pub get_addresses-named :
      (adapter : Adapter) (name : Text) (w : World)
      → guid_to_win_style_string ip adapter.guid w ≡ (ok name, w)
      → table.first_result w.trace ≡ 111
      → table.second_result w.trace ≡ 0
      → (get_addresses p ip m table adapter w ≡ (
        ok (named (λ a. read_all (map (λ u. u.0) a.unicast)) name (table.adapters w.trace)),
        w,
      ))
        × (get_gateways p ip m table adapter w
            ≡ (ok (named (λ a. read_all a.gateways) name (table.adapters w.trace)), w))
  unfolding get_addresses get_gateways get_adapters_addresses guid_to_win_style_string
  get_addresses-named adapter name w g first second = (
    ground (
      arith,
      walk-named (λ a. readable (sockaddrs a.unicast)) name (table.adapters w.trace) [],
      named-same (λ a. readable (sockaddrs a.unicast)) (λ a. read_all (map (λ u. u.0) a.unicast))
          name (table.adapters w.trace)
          (λ a.
            ap readable (sockaddrs-eq-map a.unicast)
            ∙ readable-eq-read_all (map (λ u. u.0) a.unicast)),
    ),
    ground (
      arith,
      walk-named (λ a. readable a.gateways) name (table.adapters w.trace) [],
      named-same (λ a. readable a.gateways) (λ a. read_all a.gateways) name (table.adapters w.trace)
          (λ a. readable-eq-read_all a.gateways),
    ),
  )
