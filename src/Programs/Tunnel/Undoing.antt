-- ===== src/Programs/Tunnel/Undoing.antt =====
-- Which routes examples/wireshark.rs has added when it has started or failed to, and which it deletes.
use wintun_bindings.Adapter.{Adapter}
use wintun_bindings.Adapter.Lifecycle.{start_session_on, max_ring_capacity}
use wintun_bindings.Adapter.Settings.{Network}
use wintun_bindings.Base.{
  ℕ, Outcome, ◌≡◌, ◌≢◌, panic, ok, ◌∷◌, inr, ◌⊎◌, inl, err, ap, refl, arith, List, Sum-cases, Text,
}
use wintun_bindings.Failure.{Error, string}
use wintun_bindings.Programs.Routes.{clean_up, RouteCmd, Shell}
use wintun_bindings.Programs.Routes.Cleanup.{
  SetsUp, set_up-SetsUp, Deletes, clean_up-Deletes, Deletes-calm,
}
use wintun_bindings.Programs.Tunnel.{
  Surroundings, take_over, default_gateway, Joined, give_back, join_thread,
}
use wintun_bindings.Session.Calls.{shutdown}
use wintun_bindings.Session.Packet.{Session}
use wintun_bindings.System.{
  M, map_err, observe, from_result, Platform, pure, Trace, World, get_running_driver_version, ◌>>=◌,
  ◌>>◌, set_event, run-cases,
}
use wintun_bindings.Util.FormatMessage.{format_message}
use wintun_bindings.Util.SockAddr.{IpAddr}
use wintun_bindings.Version.{running_version, Version}
use mathlib.Core.Path.{subst}

-- The two ways to end of a run that does not panic.
settled :
    {E A : Type 0} (r : Outcome E A × World) (w : World)
    → r.1 ≡ w
    → r.0 ≢ panic
    → ((a : A) × (r ≡ (ok a, w))) ⊎ ((e : E) × (r ≡ (err e, w)))
settled (ok a, w') w same calm = inl (a, ap (λ x. (ok a, x)) same)
settled (err e, w') w same calm = inr (e, ap (λ x. (err e, x)) same)
settled (panic, w') w same calm = absurd (calm refl)

module _ (n : Network) (env : Surroundings) (shell : Shell) where
  abbrev asked_version : World → World
  asked_version w = record w { trace = get_running_driver_version ∷ w.trace }

  version-still :
      (w : World) → let r = running_version n.platform w in (r.1 ≡ asked_version w) × (r.0 ≢ panic)
  unfolding running_version
  version-still w = (ground arith, ground arith)

  gateway-still : (w : World) → let r = default_gateway n env w in (r.1 ≡ w) × (r.0 ≢ panic)
  unfolding default_gateway format_message
  gateway-still w = (ground arith, ground arith)

  -- The capture file cannot be created, or not get its header, which is an error; or the session is
  -- started, with the largest ring.
  abbrev pub Starts : Adapter → World → Outcome Error Session × World → Type 0
  Starts adapter w r =
      ((e : Text) × (env.create_file w.trace ≡ inl e) × (r ≡ (err (string e), w)))
      ⊎ ((e : Text) × (env.create_file w.trace ≡ inr tt)
          × (env.write_header w.trace ≡ inl e)
          × (r ≡ (err (string e), w)))
      ⊎ ((env.create_file w.trace ≡ inr tt)
          × (env.write_header w.trace ≡ inr tt)
          × (r ≡ start_session_on n.platform adapter 0x4000000 w))

  -- There is no version or no default gateway, which is an error; or the routes are set up.
  abbrev pub TakesOver : List RouteCmd → Adapter → World → Outcome Error Session × World → Type 0
  TakesOver rs adapter w r =
      let w₀ = asked_version w in
      ((e : Error) × ((running_version n.platform w).0 ≡ err e) × (r ≡ (err e, w₀)))
      ⊎ ((e : Error) × ((default_gateway n env w₀).0 ≡ err e) × (r ≡ (err e, w₀)))
      ⊎ ((version : Version) × (gateway : IpAddr) × ((running_version n.platform w).0 ≡ ok version)
          × ((default_gateway n env w₀).0 ≡ ok gateway)
          × SetsUp shell (Starts adapter) rs w₀ r)

  abbrev started : Adapter → M Error Session
  started adapter = do
    created ← observe env.create_file
    map_err string (from_result created)
    written ← observe env.write_header
    map_err string (from_result written)
    start_session_on n.platform adapter max_ring_capacity

  started-Starts : (adapter : Adapter) (w : World) → Starts adapter w (started adapter w)
  started-Starts adapter w = elim (Sum-cases (env.create_file w.trace)) [
    | inl (e, c) ↦ inl (e, c, rw c refl)
    | inr (tt, c) ↦ elim (Sum-cases (env.write_header w.trace)) [
      | inl (e, h) ↦ inr (inl (e, c, h, rw (c, h) refl))
      | inr (tt, h) ↦ inr (inr (c, h, rw (c, h) refl))
    ]
  ]

  -- When `main` of examples/wireshark.rs has its adapter, it asks for the version and the default gateway,
  -- and runs the commands of the routes in order. If all go well, which is a success with no output but
  -- "Ok.", and there is a capture file, it starts the session; the first that does not go well ends it
  -- with an error, after which it makes no further call. So what it has run is not undone on an error,
  -- also not if the session does not start.
  pub take_over-branches :
      (rs : List RouteCmd) (adapter : Adapter) (w : World)
      → TakesOver rs adapter w (take_over n env shell rs adapter w)
  unfolding take_over
  take_over-branches rs adapter w =
      elim (settled (running_version n.platform w) (asked_version w) (version-still w).0
        (version-still w).1) [
          | inr (e, v) ↦ rw v (inl (e, refl, refl))
          | inl (a, v) ↦
              rw v
                (elim (settled (default_gateway n env (asked_version w)) (asked_version w)
                  (gateway-still (asked_version w)).0 (gateway-still (asked_version w)).1) [
                    | inr (e, g) ↦ rw g (inr (inl (e, refl, refl)))
                    | inl (b, g) ↦ rw g (
                        inr (
                          inr (
                            a,
                            b,
                            refl,
                            refl,
                            set_up-SetsUp shell (Starts adapter) (started adapter)
                                (started-Starts adapter) rs (asked_version w),
                          )))
                  ])
        ]

module _ (p : Platform) (s : Session) (shell : Shell) where
  abbrev pub is_shut : World → World
  is_shut w = record w { trace = set_event s.shutdown_event ∷ w.trace }

  shutdown-still : (w : World) → let r = shutdown p s w in (r.1 ≡ is_shut w) × (r.0 ≢ panic)
  unfolding shutdown
  shutdown-still w = (ground arith, ground arith)

  -- The routes are deleted, and the count is returned, or the error of a command that cannot be run.
  abbrev pub GoesOn : List RouteCmd → ℕ → World → Outcome Error ℕ × World → Type 0
  GoesOn rs c w r =
      ((w' : World) × Deletes shell rs w (ok tt, w') × (r ≡ (ok c, w')))
      ⊎ ((w' : World) × (e : Text) × Deletes shell rs w (err e, w') × (r ≡ (err (string e), w')))

  -- The shutdown or a thread has failed, and no further call is made; or the routes are deleted.
  abbrev pub GivesBack :
      List RouteCmd → Joined ℕ → Joined (Unit {0}) → World → Outcome Error ℕ × World → Type 0
  GivesBack rs reader writer w r =
      ((e : Error) × (r ≡ (err e, is_shut w))
        × (((shutdown p s w).0 ≢ ok tt)
            ⊎ ((c : ℕ) → reader ≢ inr (inr c))
            ⊎ (writer ≢ inr (inr tt))))
      ⊎ ((c : ℕ) × ((shutdown p s w).0 ≡ ok tt)
          × (reader ≡ inr (inr c))
          × (writer ≡ inr (inr tt))
          × GoesOn rs c (is_shut w) r)

  joined-cases :
      {A : Type 0} (j : Joined A)
      → ((a : A) × (j ≡ inr (inr a)))
        ⊎ (((a : A) → j ≢ inr (inr a))
            × ((w : World) → (e : Error) × (join_thread j w ≡ (err e, w))))
  joined-cases (inl t) = inr (λ a h. ground (arith, h), λ w. (string t, refl))
  joined-cases (inr (inl e)) = inr (λ a h. ground (arith, h), λ w. (e, refl))
  joined-cases (inr (inr a)) = inl (a, refl)

  cleans-up :
      (rs : List RouteCmd) (c : ℕ) (w : World)
      → GoesOn rs c w ((map_err {F = Error} string (clean_up shell rs) >> pure c) w)
  cleans-up rs c w =
      let d = clean_up-Deletes shell rs w in
      elim (run-cases (clean_up shell rs w)) [
        | inl (done, w', r) ↦ rw r (inl (w', subst (Deletes shell rs w) r d, refl))
        | inr (inl (e, w', r)) ↦ rw r (inr (w', e, subst (Deletes shell rs w) r d, refl))
        | inr (inr (w', r)) ↦ absurd (Deletes-calm shell rs w w' (subst (Deletes shell rs w) r d))
      ]

  -- When `main` of examples/wireshark.rs ends, it shuts the session down. If the shutdown or a thread has
  -- failed, it ends with an error and makes no further call, so that no route is deleted. Otherwise it
  -- deletes each route that was added, in order, and no other, whether the deletions succeed or not, and
  -- returns the count of the reader; only a command that cannot be run at all ends it before all are
  -- deleted, with its error.
  pub give_back-branches :
      (rs : List RouteCmd) (reader : Trace → Joined ℕ) (writer : Trace → Joined (Unit {0}))
      (w : World)
      → let t = (is_shut w).trace in
        GivesBack rs (reader t) (writer t) w (give_back p s shell rs reader writer w)
  unfolding give_back
  give_back-branches rs reader writer w =
      elim (settled (shutdown p s w) (is_shut w) (shutdown-still w).0 (shutdown-still w).1) [
        | inr (e, r) ↦ rw r (inl (e, refl, inl (ground (arith, r))))
        | inl (tt, r) ↦ rw r (elim (joined-cases (reader (is_shut w).trace)) [
          | inr (none, fails) ↦
              let (e, j) = fails (is_shut w) in rw j (inl (e, refl, inr (inl none)))
          | inl (c, j) ↦ rw j (elim (joined-cases (writer (is_shut w).trace)) [
            | inr (none, fails) ↦
                let (e, k) = fails (is_shut w) in rw k (inl (e, refl, inr (inr (none tt))))
            | inl (tt, k) ↦ rw k (inr (c, refl, refl, refl, cleans-up rs c (is_shut w)))
          ])
        ])
      ]
