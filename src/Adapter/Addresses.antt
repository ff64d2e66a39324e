-- ===== src/Adapter/Addresses.antt =====
-- src/adapter.rs: the name, the addresses, the gateways and the netmasks of an adapter.
pub mod Walk
use wintun_bindings.Adapter.{Adapter}
use wintun_bindings.Base.{
  ℕ, ◌/◌, ◌%◌, Bool, true, false, Option, none, some, List, [], ◌∷◌, ◌++◌, Text, text, text_eq, inl,
  inr, ◌==◌, if◌then◌else◌,
}
use wintun_bindings.Failure.{Error, io, string}
use wintun_bindings.Ffi.{IpHelper, luid_to_alias, guid_to_win_style_string}
use wintun_bindings.System.{M, ◌>>=◌, pure, fail, map_err, Platform}
use wintun_bindings.Util.FormatMessage.{Messages}
use wintun_bindings.Util.Interfaces.{AdapterAddresses, AdapterTable, get_adapters_addresses}
use wintun_bindings.Util.Netmask.{ipv6_netmask_for_prefix}
use wintun_bindings.Util.SockAddr.{SockAddr, IpAddr, v4, v6, ip_eq, retrieve_ipaddr, to_ne_bytes}
use wintun_bindings.Util.Utf8.{win_pstr_to_string}

-- `ConvertLengthToIpv4Mask`, its code and the mask.
pub record MaskApi : Type 0 where
  pub convert_code : ℕ → ℕ
  pub convert_mask : ℕ → ℕ

-- The addresses of a list that can be read. The others are only logged.
unfoldable pub readable : List SockAddr → List IpAddr
unfolding retrieve_ipaddr
readable [] = []
readable (a ∷ as') = elim (retrieve_ipaddr a) [ inr ip ↦ ip ∷ readable as' | inl e ↦ readable as' ]

abbrev pub sockaddrs : List (SockAddr × ℕ) → List SockAddr
sockaddrs [] = []
sockaddrs ((a, n) ∷ us) = a ∷ sockaddrs us

-- What a callback does to the adapter of the name. A name that is no text stops the walk.
abbrev pub on_name :
    {S : Type 0} → Text → (AdapterAddresses → S → Bool × S) → AdapterAddresses → S → Bool × S
on_name name act a s = elim (win_pstr_to_string a.adapter_name) [
  | none ↦ (false, s)
  | some n ↦ if text_eq n name then act a s else (true, s)
]

-- The octets of an IPv6 address with these segments.
abbrev pub octets_of_segments : List ℕ → List ℕ
octets_of_segments [] = []
octets_of_segments (m ∷ ms) = (m / 256) ∷ (m % 256) ∷ octets_of_segments ms

module _ (masks : MaskApi) where
  abbrev pub netmask_of : IpAddr → ℕ → Option IpAddr → Bool × Option IpAddr
  netmask_of (v4 octets) len found =
      if masks.convert_code len == 0
      then (true, some (v4 (to_ne_bytes (masks.convert_mask len))))
      else (false, found)
  netmask_of (v6 octets) len found = elim (ipv6_netmask_for_prefix len) [
    | inr segments ↦ (true, some (v6 (octets_of_segments segments)))
    | inl e ↦ (false, found)
  ]

  -- The loop over the unicast addresses, which ends at the first that is the target.
  unfoldable pub find_netmask : IpAddr → List (SockAddr × ℕ) → Option IpAddr → Bool × Option IpAddr
  unfolding retrieve_ipaddr to_ne_bytes
  find_netmask target [] found = (true, found)
  find_netmask target ((a, len) ∷ us) found =
      let rest = find_netmask target us found in
      elim (retrieve_ipaddr a) [
        | inl e ↦ (false, found)
        | inr ip ↦ if ip_eq ip target then netmask_of ip len found else rest
      ]

module _ (p : Platform) (ip : IpHelper) (m : Messages) (table : AdapterTable) where
  unfoldable pub get_name : Adapter → M Error Text
  unfolding luid_to_alias
  get_name adapter = map_err io (luid_to_alias ip adapter.luid)

  unfoldable pub get_addresses : Adapter → M Error (List IpAddr)
  unfolding guid_to_win_style_string get_adapters_addresses readable
  get_addresses adapter = do
    name ← guid_to_win_style_string ip adapter.guid
    get_adapters_addresses p m table
        (on_name name (λ a found. (true, found ++ readable (sockaddrs a.unicast)))) []

  unfoldable pub get_gateways : Adapter → M Error (List IpAddr)
  unfolding guid_to_win_style_string get_adapters_addresses readable
  get_gateways adapter = do
    name ← guid_to_win_style_string ip adapter.guid
    get_adapters_addresses p m table
        (on_name name (λ a found. (true, found ++ readable a.gateways))) []

  unfoldable pub get_netmask_of_address : MaskApi → Adapter → IpAddr → M Error IpAddr
  unfolding guid_to_win_style_string get_adapters_addresses find_netmask
  get_netmask_of_address masks adapter target = do
    name ← guid_to_win_style_string ip adapter.guid
    found ←
        get_adapters_addresses p m table
          (on_name name (λ a found. find_netmask masks target a.unicast found)) none
    elim found [
      | some mask ↦ pure mask
      | none ↦ fail (string (text "Unable to find matching address"))
    ]
