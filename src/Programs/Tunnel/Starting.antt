-- ===== src/Programs/Tunnel/Starting.antt =====
-- Which adapters `main` of examples/wireshark.rs leaves open when it has started, and when it has not.
use wintun_bindings.Adapter.{Adapter}
use wintun_bindings.Adapter.Lifecycle.Handles.{opened}
use wintun_bindings.Adapter.Registry.{Registry}
use wintun_bindings.Adapter.Settings.{Network}
use wintun_bindings.Base.{
  ℕ, List, Text, ◌≡◌, arith, ◌∷◌, text, Bool, ◌⊎◌, [], ◌≤◌, if◌then◌else◌, none, inl, ◌<◌, refl,
  inr, true, false,
}
use wintun_bindings.Failure.{string, Error}
use wintun_bindings.Programs.Async.{begin_echo_async}
use wintun_bindings.Programs.Async.Starting.{begin_echo_async-Begun}
use wintun_bindings.Programs.Basic.{begin, or_drop}
use wintun_bindings.Programs.Basic.Opening.{Begun, adapter-Begun, begin-Begun}
use wintun_bindings.Programs.Configured.{begin_echo}
use wintun_bindings.Programs.Configured.Adapters.{begin_echo-Begun, kept-Begun}
use wintun_bindings.Programs.Configured.Keeping.{
  Keeps, Any, Keeps-pure, Keeps-then, Keeps-map_err, Keeps-version, Keeps-start,
}
use wintun_bindings.Programs.Routes.{set_up, run_netsh, went_well, verb, routes, Shell, RouteCmd}
use wintun_bindings.Programs.Tunnel.{Surroundings, take_over, default_gateway, begin_capture}
use wintun_bindings.System.{World, Trace, map_err, observe, pure, from_result, fail}
use wintun_bindings.Util.FormatMessage.{format_message}

module _ (n : Network) (registry : Registry) (env : Surroundings) (shell : Shell) where
  Keeps-gateway : Keeps n.helper Any (default_gateway n env)
  unfolding Keeps opened default_gateway format_message
  Keeps-gateway w = (ground arith, ground arith, λ a h. tt)

  Keeps-netsh : (word cmd : Text) → Keeps n.helper Any (run_netsh shell word cmd)
  unfolding Keeps opened run_netsh
  Keeps-netsh word cmd w = (ground arith, ground arith, λ a h. tt)

  judged :
      (good : Bool) (e : Text) → Keeps {E = Text} n.helper Any (if good then pure tt else fail e)
  unfolding Keeps
  judged true e w = (refl, ground arith, λ a h. tt)
  judged false e w = (refl, ground arith, λ a h. tt)

  Keeps-observe :
      {A : Type 0} (answer : Trace → A) → Keeps {E = Error} n.helper Any (observe answer)
  unfolding Keeps
  Keeps-observe answer w = (refl, ground arith, λ a h. tt)

  Keeps-from_result :
      (r : Text ⊎ Unit {0}) → Keeps n.helper Any (map_err {F = Error} string (from_result r))
  unfolding Keeps
  Keeps-from_result (inl e) w = (refl, ground arith, λ a h. tt)
  Keeps-from_result (inr done) w = (refl, ground arith, λ a h. tt)

  Keeps-set_up : (rs : List RouteCmd) → Keeps n.helper Any (set_up shell rs)
  unfolding set_up
  Keeps-set_up [] = Keeps-pure n registry Text tt
  Keeps-set_up (route ∷ rest) =
      Keeps-then n registry _ _ _ (Keeps-netsh (verb route.kind) route.cmd) λ done.
        Keeps-then n registry _ _ _ (judged (went_well done.0 done.1) (text "Running process"))
          λ _. Keeps-set_up rest

  Keeps-take_over :
      (rs : List RouteCmd) (adapter : Adapter)
      → Keeps n.helper (λ s. s.adapter ≡ adapter) (take_over n env shell rs adapter)
  unfolding take_over
  Keeps-take_over rs adapter = Keeps-then n registry _ _ _ (Keeps-version n registry) λ _.
      Keeps-then n registry _ _ _ Keeps-gateway λ _.
        Keeps-then n registry _ _ _
          (Keeps-map_err n registry Any string (set_up shell rs) (Keeps-set_up rs))
          λ _. Keeps-then n registry _ _ _ (Keeps-observe env.create_file) λ created.
            Keeps-then n registry _ _ _ (Keeps-from_result created) λ _.
              Keeps-then n registry _ _ _ (Keeps-observe env.write_header) λ written.
                Keeps-then n registry _ _ _ (Keeps-from_result written)
                  λ _. Keeps-start n registry adapter

  module _ (bound fuel : ℕ)
      (ends : (t : Trace) (key i : ℕ) → bound ≤ i → registry.enum_keys t key i ≡ none)
      (enough : bound < fuel) where
    begin_capture-Begun : (w : World) → Begun n.helper w (begin_capture n env shell registry fuel w)
    unfolding begin_capture
    begin_capture-Begun w =
        adapter-Begun n registry bound fuel ends enough (text "Example") none
          (λ adapter.
            or_drop n registry fuel adapter (take_over n env shell (routes adapter.index) adapter))
          (kept-Begun n registry bound fuel ends enough
            (λ adapter. take_over n env shell (routes adapter.index) adapter)
            (λ adapter. Keeps-take_over (routes adapter.index) adapter))
          w w refl

    -- However the programs examples/basic.rs, examples/udp-echo.rs, examples/udp-echo-async.rs and
    -- examples/wireshark.rs fail between the load of the library and their loops, they have closed the adapter that they opened or created:
    -- on an error the adapters that are open are those from before. If they do not fail, one adapter more
    -- is open, and it is that of the session. None panics. The condition is that each enumeration of keys
    -- of the registry ends within `bound` rounds.
    pub starting-Begun :
        (w : World)
        → Begun n.helper w (begin n registry fuel w)
          × Begun n.helper w (begin_echo n registry fuel w)
          × Begun n.helper w (begin_echo_async n registry fuel w)
          × Begun n.helper w (begin_capture n env shell registry fuel w)
    starting-Begun w = (
      begin-Begun n registry bound fuel ends enough w,
      begin_echo-Begun n registry bound fuel ends enough w,
      begin_echo_async-Begun n registry bound fuel ends enough w,
      begin_capture-Begun w,
    )
