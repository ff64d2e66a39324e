-- ===== src/Util/Interfaces.antt =====
-- src/util.rs: the walk over the adapters of the machine, and the gateways of the active ones.
pub mod Active
use wintun_bindings.Base.{
  ℕ, List, Option, Bool, Text, ◌∷◌, if◌then◌else◌, [], ◌==◌, true, some, ◌&&◌, text, ◌||◌, inr,
  ◌++◌, none, inl, false,
}
use wintun_bindings.Failure.{IoError, Error, into_io, io, string}
use wintun_bindings.System.{Platform, Trace, M, ◌>>=◌, map_err, observe, pure, fail}
use wintun_bindings.Util.FormatMessage.{Messages, format_message}
use wintun_bindings.Util.SockAddr.{IpAddr, SockAddr, sockaddr_to_socket_addr}

-- `IP_ADAPTER_ADDRESSES_LH`, its linked lists as lists, and the bytes from `AdapterName` on.
pub record AdapterAddresses : Type 0 where
  pub adapter_name : List ℕ
  pub oper_status : ℕ
  pub if_type : ℕ
  pub unicast : List (SockAddr × ℕ)
  pub gateways : List SockAddr

-- The two calls of `GetAdaptersAddresses`, and the list that the second one writes.
pub record AdapterTable : Type 0 where
  pub first_result : Trace → ℕ
  pub second_result : Trace → ℕ
  pub adapters : Trace → List AdapterAddresses

-- The walk over what the call wrote, until the callback says no.
unfoldable pub walk : {S A : Type 0} → (A → S → Bool × S) → List A → S → S
walk callback [] s = s
walk callback (a ∷ as') s =
    let rest = walk callback as' (callback a s).1 in
    if (callback a s).0 then rest else (callback a s).1

abbrev name_of_code : ℕ → Option Text
name_of_code code =
    if code == 1228
    then some (text "ERROR_ADDRESS_NOT_ASSOCIATED")
    else if code == 111
    then some (text "ERROR_BUFFER_OVERFLOW")
    else if code == 87
    then some (text "ERROR_INVALID_PARAMETER")
    else if code == 8
    then some (text "ERROR_NOT_ENOUGH_MEMORY")
    else if code == 232
    then some (text "ERROR_NO_DATA")
    else none

module _ (p : Platform) (m : Messages) (table : AdapterTable) where
  unfoldable pub code_text : ℕ → M Error Text
  unfolding format_message
  code_text code = elim (name_of_code code) [
    | some name ↦ pure name
    | none ↦ map_err io (format_message p m code)
  ]

  unfoldable pub get_adapters_addresses :
      {S : Type 0} → (AdapterAddresses → S → Bool × S) → S → M Error S
  unfolding walk code_text format_message
  get_adapters_addresses callback s = do
    first ← observe table.first_result
    if first == 111
        then (do
          second ← observe table.second_result
          if second == 0 then observe (λ t. walk callback (table.adapters t) s) else (do
            info ← code_text second
            fail (string (text "GetAdaptersAddresses second attemp failed: " ++ info))))
        else (do
          info ← map_err io (format_message p m first)
          fail (string (text "GetAdaptersAddresses first attemp failed: " ++ info)))

  -- The loop over the gateways of an adapter, which stops the walk at one that it cannot read.
  unfoldable pub push_gateways : List SockAddr → List IpAddr → Bool × List IpAddr
  push_gateways [] addrs = (true, addrs)
  push_gateways (g ∷ gs) addrs = elim (sockaddr_to_socket_addr g) [
    | inr a ↦ push_gateways gs (addrs ++ a.ip ∷ [])
    | inl e ↦ (false, addrs)
  ]

  -- IfOperStatusUp is 1, IF_TYPE_IEEE80211 is 71 and IF_TYPE_ETHERNET_CSMACD is 6.
  unfoldable pub active_gateways : AdapterAddresses → List IpAddr → Bool × List IpAddr
  unfolding push_gateways
  active_gateways a addrs =
      if (a.oper_status == 1) && ((a.if_type == 71) || (a.if_type == 6))
      then push_gateways a.gateways addrs
      else (true, addrs)

  unfoldable pub get_active_network_interface_gateways : M IoError (List IpAddr)
  unfolding active_gateways get_adapters_addresses
  get_active_network_interface_gateways =
      map_err into_io (get_adapters_addresses active_gateways [])
