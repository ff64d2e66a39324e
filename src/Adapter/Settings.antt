-- ===== src/Adapter/Settings.antt =====
-- src/adapter.rs: the settings of an adapter that are changed by a command.
pub mod Commands
use wintun_bindings.Adapter.{Adapter}
use wintun_bindings.Adapter.Addresses.{
  MaskApi, get_name, get_addresses, get_gateways, get_netmask_of_address,
}
use wintun_bindings.Base.{
  ℕ, true, false, Option, none, some, List, [], ◌∷◌, ◌++◌, Text, text, inl, inr,
}
use wintun_bindings.Failure.{Error, io, string}
use wintun_bindings.Ffi.{IpHelper}
use wintun_bindings.System.{M, ◌>>=◌, ◌>>◌, pure, fail, map_err, attempt, Platform}
use wintun_bindings.Util.Command.{
  Console, display_ip, run_command, set_interface_dns_servers_via_cmd,
}
use wintun_bindings.Util.Dns.{DnsApi, set_interface_dns_servers}
use wintun_bindings.Util.FormatMessage.{Messages}
use wintun_bindings.Util.Interfaces.{AdapterTable}
use wintun_bindings.Util.Mtu.{InterfaceTable, set_adapter_mtu, get_mtu_by_index}
use wintun_bindings.Util.SockAddr.{IpAddr, v4, v6}

-- What the setters ask of Windows.
pub record Network : Type 0 where
  pub platform : Platform
  pub helper : IpHelper
  pub messages : Messages
  pub adapters : AdapterTable
  pub interfaces : InterfaceTable
  pub masks : MaskApi
  pub console : Console
  pub dns : DnsApi

-- `iter().find(|addr| matches!(addr, IpAddr::V4(_)))`
abbrev pub find_ipv4 : List IpAddr → Option IpAddr
find_ipv4 [] = none
find_ipv4 (v4 octets ∷ as') = some (v4 octets)
find_ipv4 (v6 octets ∷ as') = find_ipv4 as'

module _ (n : Network) where
  abbrev pub name_of : Adapter → M Error Text
  name_of adapter = get_name n.platform n.helper n.messages n.adapters adapter

  abbrev pub addresses_of : Adapter → M Error (List IpAddr)
  addresses_of adapter = get_addresses n.platform n.helper n.messages n.adapters adapter

  abbrev pub gateways_of : Adapter → M Error (List IpAddr)
  gateways_of adapter = get_gateways n.platform n.helper n.messages n.adapters adapter

  abbrev pub netmask_for : Adapter → IpAddr → M Error IpAddr
  netmask_for adapter target =
      get_netmask_of_address n.platform n.helper n.messages n.adapters n.masks adapter target

  abbrev pub rename_args : Text → Text → List Text
  rename_args old name =
      text "interface"
      ∷ text "set"
      ∷ text "interface"
      ∷ (text "name=\"" ++ old ++ text "\"")
      ∷ (text "newname=\"" ++ name ++ text "\"")
      ∷ []

  unfoldable pub set_name : Adapter → Text → M Error (Unit {0})
  unfolding get_name run_command
  set_name adapter name = do
    old ← name_of adapter
    _ ← map_err io (run_command n.console (text "netsh") (rename_args old name))
    pure tt

  abbrev pub gateway_args : Option IpAddr → List Text
  gateway_args none = []
  gateway_args (some gateway) = (text "gateway=" ++ display_ip n.console gateway) ∷ []

  abbrev pub family_of : IpAddr → Text
  family_of (v4 octets) = text "ipv4"
  family_of (v6 octets) = text "ipv6"

  abbrev pub network_args : Text → IpAddr → IpAddr → Option IpAddr → List Text
  network_args name address mask gateway =
      text "interface"
      ∷ family_of address
      ∷ text "set"
      ∷ text "address"
      ∷ (text "name=\"" ++ name ++ text "\"")
      ∷ text "source=static"
      ∷ (text "address=" ++ display_ip n.console address)
      ∷ (text "mask=" ++ display_ip n.console mask)
      ∷ gateway_args gateway

  unfoldable pub set_network_addresses_tuple :
      Adapter → IpAddr → IpAddr → Option IpAddr → M Error (Unit {0})
  unfolding get_name run_command
  set_network_addresses_tuple adapter address mask gateway = do
    name ← name_of adapter
    _ ← map_err io (run_command n.console (text "netsh") (network_args name address mask gateway))
    pure tt

  -- The netmask of the old address, and 255.255.255.0 where there is none.
  abbrev pub netmask_or_default : Adapter → Option IpAddr → M Error IpAddr
  netmask_or_default adapter none = pure (v4 (255 ∷ 255 ∷ 255 ∷ 0 ∷ []))
  netmask_or_default adapter (some old) = netmask_for adapter old

  unfoldable pub set_address : Adapter → List ℕ → M Error (Unit {0})
  unfolding set_network_addresses_tuple
  set_address adapter octets = do
    found ← addresses_of adapter
    mask ← netmask_or_default adapter (find_ipv4 found)
    gateways ← gateways_of adapter
    set_network_addresses_tuple adapter (v4 octets) mask (find_ipv4 gateways)

  abbrev pub required : Option IpAddr → M Error IpAddr
  required none = fail (string (text "Unable to find IPv4 address"))
  required (some address) = pure address

  abbrev pub as_ipv4 : Option (List ℕ) → Option IpAddr
  as_ipv4 none = none
  as_ipv4 (some octets) = some (v4 octets)

  unfoldable pub set_gateway : Adapter → Option (List ℕ) → M Error (Unit {0})
  unfolding set_network_addresses_tuple
  set_gateway adapter gateway = do
    found ← addresses_of adapter
    address ← required (find_ipv4 found)
    mask ← netmask_for adapter address
    set_network_addresses_tuple adapter address mask (as_ipv4 gateway)

  unfoldable pub set_netmask : Adapter → List ℕ → M Error (Unit {0})
  unfolding set_network_addresses_tuple
  set_netmask adapter mask = do
    found ← addresses_of adapter
    address ← required (find_ipv4 found)
    gateways ← gateways_of adapter
    set_network_addresses_tuple adapter address (v4 mask) (find_ipv4 gateways)

  -- Where the first attempt fails, the second one is by command.
  unfoldable pub set_dns_servers : Adapter → List IpAddr → M Error (Unit {0})
  unfolding set_interface_dns_servers set_interface_dns_servers_via_cmd
  set_dns_servers adapter servers = do
    r ← attempt (set_interface_dns_servers n.console n.dns adapter.guid servers)
    elim r [
      | inr done ↦ pure tt
      | inl e ↦ do name ← name_of adapter; set_interface_dns_servers_via_cmd n.console name servers
    ]

  unfoldable pub set_mtu : Adapter → ℕ → M Error (Unit {0})
  unfolding set_adapter_mtu
  set_mtu adapter mtu = do
    name ← name_of adapter
    map_err io
        (set_adapter_mtu n.platform n.helper n.messages n.interfaces n.console name mtu false)
    map_err io (set_adapter_mtu n.platform n.helper n.messages n.interfaces n.console name mtu true)

  unfoldable pub get_mtu : Adapter → M Error ℕ
  unfolding get_mtu_by_index
  get_mtu adapter = map_err io (get_mtu_by_index n.platform n.interfaces adapter.index false)
