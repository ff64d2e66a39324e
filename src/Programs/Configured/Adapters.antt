-- ===== src/Programs/Configured/Adapters.antt =====
-- Which adapters `main` of examples/udp-echo.rs leaves open when it has started, and when it has not.
use wintun_bindings.Adapter.{Adapter}
use wintun_bindings.Adapter.Lifecycle.Handles.{opened}
use wintun_bindings.Adapter.Registry.{Registry}
use wintun_bindings.Adapter.Settings.{Network}
use wintun_bindings.Base.{ℕ, refl, ◌≡◌, text, ◌≤◌, none, ◌<◌, ◌∷◌, inr, some, inl, ◌∙◌, ap, sym}
use wintun_bindings.Failure.{Error}
use wintun_bindings.Programs.Basic.{or_drop}
use wintun_bindings.Programs.Basic.Opening.{Begun, program-Begun, or_drop-opened}
use wintun_bindings.Programs.Configured.{configure, metric_args, address_args, begin_echo}
use wintun_bindings.Programs.Configured.Keeping.{
  Keeps, Keeps-then, Keeps-version, Keeps-io, Keeps-start, Keeps-netsh,
}
use wintun_bindings.Programs.Configured.Setters.{
  Keeps-set_dns_servers, Keeps-addresses, Keeps-netmasks, Keeps-gateways, Keeps-set_mtu, Keeps-mtu,
  Keeps-active,
}
use wintun_bindings.Session.Packet.{Session}
use wintun_bindings.System.{M, Trace, World}

module _ (n : Network) (registry : Registry) where
  Keeps-configure :
      (adapter : Adapter) → Keeps n.helper (λ s. s.adapter ≡ adapter) (configure n adapter)
  unfolding configure
  Keeps-configure adapter = Keeps-then n registry _ _ _ (Keeps-version n registry) λ _.
      Keeps-then n registry _ _ _ (Keeps-netsh n registry metric_args) λ _.
        Keeps-then n registry _ _ _ (Keeps-netsh n registry address_args) λ _.
          Keeps-then n registry _ _ _ (Keeps-set_dns_servers n registry adapter _) λ _.
            Keeps-then n registry _ _ _ (Keeps-addresses n registry adapter) λ v.
              Keeps-then n registry _ _ _ (Keeps-netmasks n registry adapter v) λ _.
                Keeps-then n registry _ _ _ (Keeps-gateways n registry adapter) λ _.
                  Keeps-then n registry _ _ _ (Keeps-set_mtu n registry adapter 1400) λ _.
                    Keeps-then n registry _ _ _ (Keeps-mtu n registry adapter) λ _.
                      Keeps-then n registry _ _ _ (Keeps-io n registry _ (Keeps-active n registry))
                        λ _. Keeps-start n registry adapter

  module _ (bound fuel : ℕ)
      (ends : (t : Trace) (key i : ℕ) → bound ≤ i → registry.enum_keys t key i ≡ none)
      (enough : bound < fuel) where
    -- What `main` does with its adapter opens and closes none.
    pub kept-Begun :
        (body : Adapter → M Error Session)
        → ((adapter : Adapter) → Keeps n.helper (λ s. s.adapter ≡ adapter) (body adapter))
        → (adapter : Adapter) (w w₁ : World)
        → opened n.helper w₁.trace ≡ adapter.handle ∷ opened n.helper w.trace
        → Begun n.helper w (or_drop n registry fuel adapter (body adapter) w₁)
    unfolding Keeps
    kept-Begun body keeps adapter w w₁ owned =
        let (still, alive, named) = keeps adapter w₁ in
        elim (or_drop-opened n registry bound fuel ends enough adapter (body adapter) w₁
          (opened n.helper w.trace) owned still alive) [
            | inr (e, w', run, back) ↦ rw run (inr (e, refl, back))
            | inl (s, w', runs, run, more) ↦ rw run (
                inl (
                  s,
                  refl,
                  more
                      ∙ ap (λ a. a.handle ∷ opened n.helper w.trace)
                          (sym (named s (ap (λ x. x.0) runs))),
                ))
          ]

    pub begin_echo-Begun : (w : World) → Begun n.helper w (begin_echo n registry fuel w)
    unfolding begin_echo
    begin_echo-Begun w =
        program-Begun n registry bound fuel ends enough (text "MyTunnelType")
          (some 2131231231231231231)
          (λ adapter. or_drop n registry fuel adapter (configure n adapter))
          (kept-Begun (configure n) Keeps-configure) w
