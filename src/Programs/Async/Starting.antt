-- ===== src/Programs/Async/Starting.antt =====
-- Which adapters `main` of examples/udp-echo-async.rs leaves open when it has started, and when it has not.
use wintun_bindings.Adapter.{Adapter}
use wintun_bindings.Adapter.Registry.{Registry}
use wintun_bindings.Adapter.Settings.{Network}
use wintun_bindings.Base.{ℕ, text, some, ◌≤◌, ◌≡◌, none, ◌<◌}
use wintun_bindings.Programs.Async.{configure_async, begin_echo_async}
use wintun_bindings.Programs.Basic.{or_drop}
use wintun_bindings.Programs.Basic.Opening.{Begun, program-Begun}
use wintun_bindings.Programs.Configured.{metric_args, address_args}
use wintun_bindings.Programs.Configured.Adapters.{kept-Begun}
use wintun_bindings.Programs.Configured.Keeping.{
  Keeps, Keeps-then, Keeps-version, Keeps-io, Keeps-start, Keeps-netsh,
}
use wintun_bindings.Programs.Configured.Setters.{
  Keeps-set_dns_servers, Keeps-addresses, Keeps-netmasks, Keeps-gateways, Keeps-mtu, Keeps-active,
}
use wintun_bindings.System.{Trace, World}

module _ (n : Network) (registry : Registry) where
  Keeps-configure_async :
      (adapter : Adapter) → Keeps n.helper (λ s. s.adapter ≡ adapter) (configure_async n adapter)
  unfolding configure_async
  Keeps-configure_async adapter = Keeps-then n registry _ _ _ (Keeps-version n registry) λ _.
      Keeps-then n registry _ _ _ (Keeps-netsh n registry metric_args) λ _.
        Keeps-then n registry _ _ _ (Keeps-netsh n registry address_args) λ _.
          Keeps-then n registry _ _ _ (Keeps-set_dns_servers n registry adapter _) λ _.
            Keeps-then n registry _ _ _ (Keeps-addresses n registry adapter) λ v.
              Keeps-then n registry _ _ _ (Keeps-netmasks n registry adapter v) λ _.
                Keeps-then n registry _ _ _ (Keeps-gateways n registry adapter) λ _.
                  Keeps-then n registry _ _ _ (Keeps-mtu n registry adapter) λ _.
                    Keeps-then n registry _ _ _ (Keeps-io n registry _ (Keeps-active n registry))
                      λ _. Keeps-start n registry adapter

  module _ (bound fuel : ℕ)
      (ends : (t : Trace) (key i : ℕ) → bound ≤ i → registry.enum_keys t key i ≡ none)
      (enough : bound < fuel) where
    pub begin_echo_async-Begun : (w : World) → Begun n.helper w (begin_echo_async n registry fuel w)
    unfolding begin_echo_async
    begin_echo_async-Begun w =
        program-Begun n registry bound fuel ends enough (text "MyTunnelType")
          (some 2131231231231231231)
          (λ adapter. or_drop n registry fuel adapter (configure_async n adapter))
          (kept-Begun n registry bound fuel ends enough (configure_async n) Keeps-configure_async) w
