-- ===== src/Programs/Configured.antt =====
-- examples/udp-echo.rs: how `main` opens the adapter, sets it up, and starts the session.
pub mod Keeping
pub mod Setters
pub mod Adapters
use wintun_bindings.Adapter.{Adapter}
use wintun_bindings.Adapter.Lifecycle.{start_session_on, max_ring_capacity}
use wintun_bindings.Adapter.Registry.{Registry}
use wintun_bindings.Adapter.Settings.{
  Network, netmask_for, set_dns_servers, addresses_of, gateways_of, set_mtu, get_mtu,
}
use wintun_bindings.Base.{ℕ, List, Text, text, ◌∷◌, [], some}
use wintun_bindings.Failure.{Error, io}
use wintun_bindings.Programs.Basic.{or_drop, open_or_create}
use wintun_bindings.Session.Packet.{Session}
use wintun_bindings.System.{M, pure, ◌>>=◌, attempt, map_err, ◌>>◌}
use wintun_bindings.Util.Command.{run_command}
use wintun_bindings.Util.Interfaces.{get_active_network_interface_gateways}
use wintun_bindings.Util.SockAddr.{IpAddr, v4}
use wintun_bindings.Version.{running_version}

-- The arguments of the command that sets the metric.
abbrev pub metric_args : List Text
metric_args =
    text "interface"
    ∷ text "ipv4"
    ∷ text "set"
    ∷ text "interface"
    ∷ text "Demo"
    ∷ text "metric=255"
    ∷ []

-- The arguments of the command that sets the address, the netmask and the gateway.
abbrev pub address_args : List Text
address_args =
    text "interface"
    ∷ text "ipv4"
    ∷ text "set"
    ∷ text "address"
    ∷ text "Demo"
    ∷ text "static"
    ∷ text "10.28.13.2/24"
    ∷ text "gateway=10.28.13.1"
    ∷ []

module _ (n : Network) where
  -- The loop over the addresses, which asks for the netmask of each.
  unfoldable pub netmasks : Adapter → List IpAddr → M Error (Unit {0})
  netmasks adapter [] = pure tt
  netmasks adapter (a ∷ as') = do _ ← netmask_for n adapter a; netmasks adapter as'

  -- `main` with its adapter, up to the session.
  unfoldable pub configure : Adapter → M Error Session
  unfolding netmasks
  configure adapter = do
    _ ← running_version n.platform
    _ ← map_err io (run_command n.console (text "netsh") metric_args)
    _ ← map_err io (run_command n.console (text "netsh") address_args)
    set_dns_servers n adapter (v4 (8 ∷ 8 ∷ 8 ∷ 8 ∷ []) ∷ v4 (8 ∷ 8 ∷ 4 ∷ 4 ∷ []) ∷ [])
    v ← addresses_of n adapter
    netmasks adapter v
    _ ← gateways_of n adapter
    set_mtu n adapter 1400
    _ ← get_mtu n adapter
    _ ← map_err io (get_active_network_interface_gateways n.platform n.messages n.adapters)
    start_session_on n.platform adapter max_ring_capacity

  -- `main` from the first question for the version on. `key_rounds` is the fuel of the loops of
  -- `drop_adapter`.
  unfoldable pub begin_echo : Registry → ℕ → M Error Session
  unfolding configure or_drop open_or_create
  begin_echo registry key_rounds = do
    _ ← attempt (running_version n.platform)
    adapter ←
        open_or_create n.platform n.helper (text "Demo") (text "MyTunnelType")
          (some 2131231231231231231)
    or_drop n registry key_rounds adapter (configure adapter)
