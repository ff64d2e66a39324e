-- ===== src/Programs/Configured/Keeping.antt =====
-- Which calls of examples/udp-echo.rs neither open nor close an adapter, and what `main` leaves open.
use wintun_bindings.Adapter.{Adapter}
use wintun_bindings.Adapter.Addresses.{get_name}
use wintun_bindings.Adapter.Lifecycle.{start_session_on, max_ring_capacity}
use wintun_bindings.Adapter.Lifecycle.Handles.{opened}
use wintun_bindings.Adapter.Registry.{Registry}
use wintun_bindings.Adapter.Settings.{Network, name_of}
use wintun_bindings.Base.{
  ◌≡◌, Text, ◌≢◌, panic, ok, inl, arith, List, ap, ◌∙◌, sym, inr, refl, text,
}
use wintun_bindings.Failure.{IoError, io, Error}
use wintun_bindings.Ffi.{IpHelper}
use wintun_bindings.Programs.Basic.Opening.{running_version-opened, start_session_on-opened}
use wintun_bindings.System.{M, World, ◌>>=◌, map_err, run-cases, pure, attempt}
use wintun_bindings.Util.Command.{run_command, check_output}
use wintun_bindings.Version.{running_version}

-- A run that opens and closes no adapter, does not panic, and ends in a value with the property if it
-- ends in one.
unfoldable pub Keeps : {E A : Type 0} → IpHelper → (A → Type 0) → M E A → Type 0
Keeps {E} {A} ip P m =
    (w : World)
    → (opened ip (m w).1.trace ≡ opened ip w.trace)
      × ((m w).0 ≢ panic)
      × ((a : A) → (m w).0 ≡ ok a → P a)

abbrev pub Any : {A : Type 0} → A → Type 0
Any a = Unit {0}

module _ (n : Network) (registry : Registry) where
  pub Keeps->>= :
      {E A B : Type 0} (P : A → Type 0) (Q : B → Type 0) (m : M E A) (k : A → M E B)
      → Keeps n.helper P m
      → ((a : A) → P a → Keeps n.helper Q (k a))
      → Keeps n.helper Q (m >>= k)
  unfolding Keeps
  Keeps->>= P Q m k first next w =
      let (same, alive, holds) = first w in
      elim (run-cases (m w)) [
        | inl (a, w', r) ↦
            let (same', alive', holds') = next a (holds a (ap (λ x. x.0) r)) w' in
            rw r (same' ∙ ap (λ x. opened n.helper x.1.trace) (sym r) ∙ same, alive', holds')
        | inr (inl (e, w', r)) ↦
            (ground (arith, r, same), ground (arith, r), λ b h. absurd (ground (arith, r, h)))
        | inr (inr (w', r)) ↦ absurd (alive (ap (λ x. x.0) r))
      ]

  pub Keeps-map_err :
      {E F A : Type 0} (P : A → Type 0) (f : E → F) (m : M E A)
      → Keeps n.helper P m
      → Keeps n.helper P (map_err f m)
  unfolding Keeps
  Keeps-map_err P f m keeps w =
      let (same, alive, holds) = keeps w in
      elim (run-cases (m w)) [
        | inl (a, w', r) ↦
            (ground (arith, r, same), ground (arith, r), λ b h. holds b (ground (arith, r, h)))
        | inr (inl (e, w', r)) ↦
            (ground (arith, r, same), ground (arith, r), λ b h. absurd (ground (arith, r, h)))
        | inr (inr (w', r)) ↦ absurd (alive (ap (λ x. x.0) r))
      ]

  pub Keeps-run_command :
      (name : Text) (args : List Text) → Keeps n.helper Any (run_command n.console name args)
  unfolding Keeps run_command opened check_output
  Keeps-run_command name args w = (ground arith, ground arith, λ a h. tt)

  pub Keeps-version : Keeps n.helper Any (running_version n.platform)
  unfolding Keeps
  Keeps-version w =
      let (same, alive) = running_version-opened n registry w in (same, alive, λ a h. tt)

  pub Keeps-start :
      (adapter : Adapter)
      → Keeps n.helper
          (λ s. s.adapter ≡ adapter)
          (start_session_on n.platform adapter max_ring_capacity)
  unfolding Keeps
  Keeps-start adapter w = start_session_on-opened n registry adapter max_ring_capacity w

  pub Keeps-name : (adapter : Adapter) → Keeps n.helper Any (name_of n adapter)
  unfolding Keeps opened get_name
  Keeps-name adapter w = (ground arith, ground arith, λ a h. tt)

  pub Keeps-pure : (E : Type 0) {A : Type 0} (a : A) → Keeps {E = E} n.helper Any (pure a)
  unfolding Keeps
  Keeps-pure E a w = (refl, ground arith, λ b h. tt)

  -- The runs in turn.
  pub Keeps-then :
      {E A B : Type 0} (Q : B → Type 0) (m : M E A) (k : A → M E B)
      → Keeps n.helper Any m
      → ((a : A) → Keeps n.helper Q (k a))
      → Keeps n.helper Q (m >>= k)
  Keeps-then Q m k first next = Keeps->>= Any Q m k first (λ a h. next a)

  pub Keeps-io :
      {A : Type 0} (m : M IoError A) → Keeps n.helper Any m → Keeps n.helper Any (map_err io m)
  Keeps-io m keeps = Keeps-map_err Any io m keeps

  pub Keeps-netsh :
      (args : List Text)
      → Keeps {E = Error} n.helper Any (map_err io (run_command n.console (text "netsh") args))
  Keeps-netsh args =
      Keeps-io (run_command n.console (text "netsh") args) (Keeps-run_command (text "netsh") args)

  -- A run that is replaced by another one where it fails.
  pub Keeps-or_else :
      {E F A : Type 0} (m : M E A) (k : M F (Unit {0}))
      → Keeps n.helper Any m
      → Keeps n.helper Any k
      → Keeps n.helper Any
          (attempt m >>= λ r. elim r as (λ _. M F (Unit {0})) [ inr a ↦ pure tt | inl e ↦ k ])
  unfolding Keeps
  Keeps-or_else m k first second w =
      let (same, alive, holds) = first w in
      elim (run-cases (m w)) [
        | inl (a, w', r) ↦ (ground (arith, r, same), ground (arith, r), λ b h. tt)
        | inr (inl (e, w', r)) ↦
            let (same', alive', holds') = second w' in
            rw r (same' ∙ ap (λ x. opened n.helper x.1.trace) (sym r) ∙ same, alive', holds')
        | inr (inr (w', r)) ↦ absurd (alive (ap (λ x. x.0) r))
      ]
