-- ===== src/Programs/Configured/Setters.antt =====
-- The getters and setters of examples/udp-echo.rs, which neither open nor close an adapter.
use wintun_bindings.Adapter.{Adapter}
use wintun_bindings.Adapter.Addresses.{get_gateways, get_addresses, get_netmask_of_address}
use wintun_bindings.Adapter.Lifecycle.Handles.{opened}
use wintun_bindings.Adapter.Registry.{Registry}
use wintun_bindings.Adapter.Settings.{
  Network, set_mtu, set_dns_servers, get_mtu, gateways_of, addresses_of, netmask_for, name_of,
}
use wintun_bindings.Base.{ℕ, List, Text, Bool, arith, ◌∷◌, text, [], not, ◌+◌, false, true}
use wintun_bindings.Failure.{IoError, io, Error}
use wintun_bindings.Ffi.{alias_to_luid, luid_to_index}
use wintun_bindings.Programs.Configured.{netmasks}
use wintun_bindings.Programs.Configured.Keeping.{
  Keeps, Any, Keeps-then, Keeps-pure, Keeps-name, Keeps-io, Keeps-run_command, Keeps-or_else,
}
use wintun_bindings.System.{◌>>=◌, ◌>>◌, M, map_err, pure}
use wintun_bindings.Util.Command.{
  run_command, add_dns_servers, set_interface_dns_servers_via_cmd, set_adapter_mtu_cmd, dns_args,
  more_dns_args, mtu_args,
}
use wintun_bindings.Util.Dns.{set_interface_dns_servers}
use wintun_bindings.Util.Interfaces.{
  get_active_network_interface_gateways, get_adapters_addresses, AdapterAddresses,
}
use wintun_bindings.Util.Mtu.{
  set_adapter_mtu, get_mtu_by_index, get_ip_interface_table, set_adapter_mtu_api, set_entry,
  fail_with_message,
}
use wintun_bindings.Util.SockAddr.{is_ipv4, IpAddr}

module _ (n : Network) (registry : Registry) where
  Keeps-walk :
      {S : Type 0} (act : AdapterAddresses → S → Bool × S) (s : S)
      → Keeps n.helper Any (get_adapters_addresses n.platform n.messages n.adapters act s)
  unfolding Keeps opened get_adapters_addresses
  Keeps-walk act s w = (ground arith, ground arith, λ a h. tt)

  pub Keeps-mtu : (adapter : Adapter) → Keeps n.helper Any (get_mtu n adapter)
  unfolding Keeps opened get_mtu get_mtu_by_index get_ip_interface_table
  Keeps-mtu adapter w = (ground arith, ground arith, λ a h. tt)

  pub Keeps-addresses : (adapter : Adapter) → Keeps n.helper Any (addresses_of n adapter)
  unfolding Keeps opened get_addresses get_adapters_addresses
  Keeps-addresses adapter w = (ground arith, ground arith, λ a h. tt)

  pub Keeps-gateways : (adapter : Adapter) → Keeps n.helper Any (gateways_of n adapter)
  unfolding Keeps opened get_gateways get_adapters_addresses
  Keeps-gateways adapter w = (ground arith, ground arith, λ a h. tt)

  Keeps-netmask : (adapter : Adapter) (a : IpAddr) → Keeps n.helper Any (netmask_for n adapter a)
  unfolding Keeps opened get_netmask_of_address get_adapters_addresses
  Keeps-netmask adapter a w = (ground arith, ground arith, λ b h. tt)

  pub Keeps-netmasks :
      (adapter : Adapter) (as' : List IpAddr) → Keeps n.helper Any (netmasks n adapter as')
  unfolding netmasks
  Keeps-netmasks adapter [] = Keeps-pure n registry Error tt
  Keeps-netmasks adapter (a ∷ as') =
      Keeps-then n registry Any (netmask_for n adapter a) (λ _. netmasks n adapter as')
        (Keeps-netmask adapter a) (λ _. Keeps-netmasks adapter as')

  Keeps-mtu_cmd :
      (name : Text) (mtu : ℕ) (is_ipv6 : Bool)
      → Keeps n.helper Any (set_adapter_mtu_cmd n.console name mtu is_ipv6)
  unfolding set_adapter_mtu_cmd
  Keeps-mtu_cmd name mtu is_ipv6 =
      let args = mtu_args n.console name mtu is_ipv6 in
      Keeps-then n registry Any (run_command n.console (text "netsh") args) (λ _. pure tt)
        (Keeps-run_command n registry (text "netsh") args) (λ _. Keeps-pure n registry IoError tt)

  Keeps-luid : (name : Text) → Keeps n.helper Any (alias_to_luid n.helper name)
  unfolding Keeps opened alias_to_luid
  Keeps-luid name w = (ground arith, ground arith, λ b h. tt)

  Keeps-index : (luid : ℕ) → Keeps n.helper Any (luid_to_index n.helper luid)
  unfolding Keeps opened luid_to_index
  Keeps-index luid w = (ground arith, ground arith, λ b h. tt)

  Keeps-set_entry :
      (index mtu : ℕ)
      → Keeps n.helper Any
          (set_entry n.platform n.helper n.messages n.interfaces n.console index mtu)
  unfolding Keeps opened set_entry fail_with_message
  Keeps-set_entry index mtu w = (ground arith, ground arith, λ b h. tt)

  Keeps-mtu_api :
      (name : Text) (mtu : ℕ)
      → Keeps n.helper Any
          (set_adapter_mtu_api n.platform n.helper n.messages n.interfaces n.console name mtu)
  unfolding set_adapter_mtu_api
  Keeps-mtu_api name mtu =
      let entry : ℕ → M IoError (Unit {0}) =
        λ index. set_entry n.platform n.helper n.messages n.interfaces n.console index mtu in
      Keeps-then n registry Any (alias_to_luid n.helper name)
        (λ luid. luid_to_index n.helper luid >>= entry) (Keeps-luid name)
        λ luid.
          Keeps-then n registry Any (luid_to_index n.helper luid) entry (Keeps-index luid)
            λ index. Keeps-set_entry index mtu

  Keeps-set_adapter_mtu :
      (name : Text) (mtu : ℕ) (is_ipv6 : Bool)
      → Keeps n.helper Any
          (set_adapter_mtu n.platform n.helper n.messages n.interfaces n.console name mtu is_ipv6)
  unfolding set_adapter_mtu
  Keeps-set_adapter_mtu name mtu is_ipv6 =
      Keeps-or_else n registry (set_adapter_mtu_cmd n.console name mtu is_ipv6)
        (set_adapter_mtu_api n.platform n.helper n.messages n.interfaces n.console name mtu)
        (Keeps-mtu_cmd name mtu is_ipv6) (Keeps-mtu_api name mtu)

  Keeps-add_dns_servers :
      (is_ipv6 : Bool) (name : Text) (index : ℕ) (servers : List IpAddr)
      → Keeps n.helper Any (add_dns_servers n.console is_ipv6 name index servers)
  unfolding add_dns_servers
  Keeps-add_dns_servers is_ipv6 name index [] = Keeps-pure n registry Error tt
  Keeps-add_dns_servers is_ipv6 name index (a ∷ as') =
      let m = run_command n.console (text "netsh") (more_dns_args n.console is_ipv6 name index a) in
      Keeps-then n registry Any (map_err io m)
        (λ _. add_dns_servers n.console is_ipv6 name (index + 1) as')
        (Keeps-io n registry m (
          Keeps-run_command n registry (text "netsh")
            (more_dns_args n.console is_ipv6 name index a)))
        (λ _. Keeps-add_dns_servers is_ipv6 name (index + 1) as')

  Keeps-dns_via_cmd :
      (name : Text) (servers : List IpAddr)
      → Keeps n.helper Any (set_interface_dns_servers_via_cmd n.console name servers)
  unfolding set_interface_dns_servers_via_cmd
  Keeps-dns_via_cmd name [] = Keeps-pure n registry Error tt
  Keeps-dns_via_cmd name (a ∷ as') =
      let args = dns_args n.console (not (is_ipv4 a)) name a in
      let m = run_command n.console (text "netsh") args in
      Keeps-then n registry Any (map_err io m)
        (λ _. add_dns_servers n.console (not (is_ipv4 a)) name 2 as')
        (Keeps-io n registry m (Keeps-run_command n registry (text "netsh") args))
        (λ _. Keeps-add_dns_servers (not (is_ipv4 a)) name 2 as')

  Keeps-dns_call :
      (guid : ℕ) (servers : List IpAddr)
      → Keeps n.helper Any (set_interface_dns_servers n.console n.dns guid servers)
  unfolding Keeps opened set_interface_dns_servers
  Keeps-dns_call guid servers w = (ground arith, ground arith, λ b h. tt)

  pub Keeps-set_dns_servers :
      (adapter : Adapter) (servers : List IpAddr)
      → Keeps n.helper Any (set_dns_servers n adapter servers)
  unfolding set_dns_servers
  Keeps-set_dns_servers adapter servers =
      Keeps-or_else n registry (set_interface_dns_servers n.console n.dns adapter.guid servers)
        (name_of n adapter >>= λ name. set_interface_dns_servers_via_cmd n.console name servers)
        (Keeps-dns_call adapter.guid servers)
        (Keeps-then n registry Any (name_of n adapter)
          (λ name. set_interface_dns_servers_via_cmd n.console name servers)
          (Keeps-name n registry adapter) (λ name. Keeps-dns_via_cmd name servers))

  pub Keeps-set_mtu : (adapter : Adapter) (mtu : ℕ) → Keeps n.helper Any (set_mtu n adapter mtu)
  unfolding set_mtu
  Keeps-set_mtu adapter mtu =
      let m : Text → Bool → M IoError (Unit {0}) = λ name is_ipv6.
        set_adapter_mtu n.platform n.helper n.messages n.interfaces n.console name mtu is_ipv6 in
      Keeps-then n registry Any (name_of n adapter)
        (λ name. map_err {F = Error} io (m name false) >> map_err io (m name true))
        (Keeps-name n registry adapter)
        (λ name.
          Keeps-then n registry Any (map_err io (m name false)) (λ _. map_err io (m name true))
            (Keeps-io n registry (m name false) (Keeps-set_adapter_mtu name mtu false))
            (λ _. Keeps-io n registry (m name true) (Keeps-set_adapter_mtu name mtu true)))

  pub Keeps-active :
      Keeps n.helper Any (get_active_network_interface_gateways n.platform n.messages n.adapters)
  unfolding Keeps opened get_active_network_interface_gateways get_adapters_addresses
  Keeps-active w = (ground arith, ground arith, λ b h. tt)
