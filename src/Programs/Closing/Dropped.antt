-- ===== src/Programs/Closing/Dropped.antt =====
-- What `main` of examples/basic.rs leaves open when it returns.
use wintun_bindings.Adapter.{Adapter}
use wintun_bindings.Adapter.Lifecycle.Handles.{opened}
use wintun_bindings.Adapter.Registry.{Registry}
use wintun_bindings.Adapter.Settings.{Network}
use wintun_bindings.Base.{true, ℕ, ◌≡◌, ok, ◌+◌, ◌∷◌, Bool, ◌⊎◌, false, Outcome, err}
use wintun_bindings.Failure.{Error}
use wintun_bindings.Programs.Basic.{begin}
use wintun_bindings.Programs.Closing.{stop}
use wintun_bindings.Programs.Tunnel.{Joined}
use wintun_bindings.Session.Lifetime.{ends}
use wintun_bindings.Session.Packet.{Session}
use wintun_bindings.System.{World, Trace}

-- `main` had no session; or it has let go of its session and its adapter, or left both to the thread.
abbrev pub LetsGo :
    (n : Network)
    → Registry
    → ℕ
    → (Trace → Bool)
    → (Trace → Joined (Unit {0}))
    → World
    → Outcome Error (Unit {0}) × World
    → Type 0
LetsGo n registry fuel ended reader w r =
    ((e : Error) × (w₁ : World) × (begin n registry fuel w ≡ (err e, w₁))
      × (r ≡ (err e, w₁))
      × (opened n.helper r.1.trace ≡ opened n.helper w.trace))
    ⊎ ((s : Session) × (w₁ : World) × (begin n registry fuel w ≡ (ok s, w₁))
        × (let (result, w₂) = stop n.platform s reader w₁ in
            (r.0 ≡ result)
            × (((ended w₂.trace ≡ true)
                  × (opened n.helper r.1.trace ≡ opened n.helper w.trace)
                  × (ends s.inner r.1.trace ≡ ends s.inner w₂.trace + 1))
                ⊎ ((ended w₂.trace ≡ false)
                    × (r.1 ≡ w₂)
                    × (opened n.helper r.1.trace ≡ s.adapter.handle ∷ opened n.helper w.trace)))))
