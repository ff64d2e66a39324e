-- ===== src/Programs/Basic/Opening.antt =====
-- Which adapters a program leaves open when it has started its session, and when it has not:
-- `main` of examples/basic.rs, and what it shares with other examples.
use wintun_bindings.Adapter.{Adapter}
use wintun_bindings.Adapter.Lifecycle.{start_session_on, open_named, max_ring_capacity}
use wintun_bindings.Adapter.Lifecycle.Handles.{opened, OpensOne, opening-OpensOne}
use wintun_bindings.Adapter.Registry.{Registry, drop_adapter}
use wintun_bindings.Adapter.Registry.Cleanup.{Deletions, deletes, stays, drop_adapter-Deletions}
use wintun_bindings.Adapter.Settings.{Network}
use wintun_bindings.Base.{
  ℕ, ◌≤◌, Text, Option, ◌≡◌, none, ◌≢◌, panic, ◌<◌, refl, arith, ok, some, inl, ap, inr, ◌∷◌, ◌⊎◌,
  err, List, Outcome, ◌∙◌, text, sym,
}
use wintun_bindings.Failure.{Error}
use wintun_bindings.Ffi.{IpHelper}
use wintun_bindings.Programs.Basic.{open_or_create, begin, or_drop}
use wintun_bindings.Session.Packet.{Session}
use wintun_bindings.Session.Ring.{erase, erase-cons_self}
use wintun_bindings.System.{attempt, Trace, World, close_adapter, run-cases, ◌>>=◌, M}
use wintun_bindings.Version.{running_version}

-- What `main` leaves when it is past `begin`: an adapter more that is open, or the adapters as they
-- were.
abbrev pub Begun : IpHelper → World → Outcome Error Session × World → Type 0
Begun ip w r =
    ((s : Session) × (r.0 ≡ ok s) × (opened ip r.1.trace ≡ s.adapter.handle ∷ opened ip w.trace))
    ⊎ ((e : Error) × (r.0 ≡ err e) × (opened ip r.1.trace ≡ opened ip w.trace))

module _ (n : Network) (registry : Registry) where
  opened-of :
      {A : Type 0} (r : Outcome Error A × World) (o : Outcome Error A) (w' : World) (xs : List ℕ)
      → r ≡ (o, w')
      → opened n.helper r.1.trace ≡ xs
      → opened n.helper w'.trace ≡ xs
  opened-of r o w' xs same h = ap (λ x. opened n.helper x.1.trace) (sym same) ∙ h

  pub running_version-opened :
      (w : World)
      → let r = running_version n.platform w in
        (opened n.helper r.1.trace ≡ opened n.helper w.trace) × (r.0 ≢ panic)
  unfolding running_version opened
  running_version-opened w = ground arith

  pub start_session_on-opened :
      (adapter : Adapter) (capacity : ℕ) (w : World)
      → let r = start_session_on n.platform adapter capacity w in
        (opened n.helper r.1.trace ≡ opened n.helper w.trace)
        × (r.0 ≢ panic)
        × ((s : Session) → r.0 ≡ ok s → s.adapter ≡ adapter)
  unfolding start_session_on opened
  start_session_on-opened adapter capacity w = (ground arith, ground arith, λ s e. ground arith)

  Deletions-opened :
      (dev_name : Text) (before after : Trace)
      → Deletions registry dev_name before after
      → opened n.helper after ≡ opened n.helper before
  unfolding opened
  Deletions-opened dev_name before _ stays = refl
  Deletions-opened dev_name before _ (deletes t key sub_key name value d o g w) =
      Deletions-opened dev_name before t d

  pub open_or_create-OpensOne :
      (name tunnel_type : Text) (guid : Option ℕ) (w : World)
      → OpensOne n.helper w (open_or_create n.platform n.helper name tunnel_type guid w)
  unfolding open_or_create
  open_or_create-OpensOne name tunnel_type guid w =
      let (alive, here, gone) = (opening-OpensOne n.platform n.helper name tunnel_type guid w).1 in
      elim (run-cases (open_named n.platform n.helper name w)) [
        | inr (inr (w₁, r)) ↦ absurd (ground (arith, alive, r))
        | inl (a, w₁, r) ↦
            (ground (arith, r), λ a' e. ground (arith, r, here a', e), λ e' e. ground (arith, r, e))
        | inr (inl (e, w₁, r)) ↦
            let same : opened n.helper w₁.trace ≡ opened n.helper w.trace =
              ground (arith, r, gone e) in
            let (alive', here', gone') =
              (opening-OpensOne n.platform n.helper name tunnel_type guid w₁).0 in
            (
              ground (arith, r, alive'),
              λ a' e'. ground (arith, r, here' a', e', same),
              λ x e'. ground (arith, r, gone' x, e', same),
            )
      ]

  module _ (bound fuel : ℕ)
      (ends : (t : Trace) (key i : ℕ) → bound ≤ i → registry.enum_keys t key i ≡ none)
      (enough : bound < fuel) where
    pub drop_adapter-opened :
        (adapter : Adapter) (w : World)
        → let r = drop_adapter n registry fuel adapter w in
          (r.0 ≡ ok (some tt))
          × (opened n.helper r.1.trace ≡ erase adapter.handle (opened n.helper w.trace))
    unfolding opened
    drop_adapter-opened adapter w =
        let (done, calls) = drop_adapter-Deletions n registry bound ends fuel adapter w enough in
        (
          done,
          elim calls [
            | inl c ↦ ap (opened n.helper) c
            | inr (name, on, named, d) ↦
                Deletions-opened name (close_adapter adapter.handle ∷ w.trace)
                  (drop_adapter n registry fuel adapter w).1.trace d
          ],
        )

    -- A call that opens and closes no adapter, made while one is owned.
    pub or_drop-opened :
        {A : Type 0} (adapter : Adapter) (call : M Error A) (w : World) (rest : List ℕ)
        → opened n.helper w.trace ≡ adapter.handle ∷ rest
        → opened n.helper (call w).1.trace ≡ opened n.helper w.trace
        → (call w).0 ≢ panic
        → ((a : A) × (w' : World) × (call w ≡ (ok a, w'))
            × (or_drop n registry fuel adapter call w ≡ (ok a, w'))
            × (opened n.helper w'.trace ≡ adapter.handle ∷ rest))
          ⊎ ((e : Error) × (w' : World) × (or_drop n registry fuel adapter call w ≡ (err e, w'))
              × (opened n.helper w'.trace ≡ rest))
    unfolding or_drop
    or_drop-opened adapter call w rest owned still alive = elim (run-cases (call w)) [
      | inr (inr (w', r)) ↦ absurd (ground (arith, r, alive))
      | inl (a, w', r) ↦ inl (a, w', r, ground (arith, r), ground (arith, r, still, owned))
      | inr (inl (e, w', r)) ↦
          let (done, gone) = drop_adapter-opened adapter w' in
          inr (
            e,
            (drop_adapter n registry fuel adapter w').1,
            ground (arith, r, done),
            gone
                ∙ ap (erase adapter.handle)
                    (ap (λ x. opened n.helper x.1.trace) (sym r) ∙ (still ∙ owned))
                ∙ erase-cons_self adapter.handle rest,
          )
    ]

    session-Begun :
        (adapter : Adapter) (w w₁ : World)
        → opened n.helper w₁.trace ≡ adapter.handle ∷ opened n.helper w.trace
        → Begun n.helper w (
            or_drop n registry fuel adapter
              (start_session_on n.platform adapter max_ring_capacity)
              w₁)
    session-Begun adapter w w₁ owned =
        let call = start_session_on n.platform adapter max_ring_capacity in
        let (still, alive, named) = start_session_on-opened adapter max_ring_capacity w₁ in
        elim (or_drop-opened adapter call w₁ (opened n.helper w.trace) owned still alive) [
          | inr (e, w', run, back) ↦ rw run (inr (e, refl, back))
          | inl (s, w', runs, run, more) ↦ rw run (
              inl (
                s,
                refl,
                more
                    ∙ ap (λ a. a.handle ∷ opened n.helper w.trace)
                        (sym (named s (ap (λ x. x.0) runs))),
              ))
        ]

    version-Begun :
        (adapter : Adapter) (w w₁ : World)
        → opened n.helper w₁.trace ≡ adapter.handle ∷ opened n.helper w.trace
        → Begun n.helper w (
            (or_drop n registry fuel adapter (running_version n.platform) >>= λ v.
            or_drop n registry fuel adapter (start_session_on n.platform adapter max_ring_capacity))
              w₁)
    version-Begun adapter w w₁ owned =
        let (still, alive) = running_version-opened w₁ in
        elim (or_drop-opened adapter (running_version n.platform) w₁ (opened n.helper w.trace) owned
          still alive) [
            | inr (e, w', run, back) ↦ rw run (inr (e, refl, back))
            | inl (v, w', runs, run, more) ↦ rw run (session-Begun adapter w w' more)
          ]

    -- A program that asks for the version, opens or creates its adapter, and goes on with `body`.
    module _ (tunnel_type : Text) (guid : Option ℕ) (body : Adapter → M Error Session)
        (goes_on : (adapter : Adapter) (w w₁ : World)
          → opened n.helper w₁.trace ≡ adapter.handle ∷ opened n.helper w.trace
          → Begun n.helper w (body adapter w₁)) where
      abbrev there : M Error Adapter
      there = open_or_create n.platform n.helper (text "Demo") tunnel_type guid

      pub adapter-Begun :
          (w w₁ : World)
          → opened n.helper w₁.trace ≡ opened n.helper w.trace
          → Begun n.helper w ((there >>= body) w₁)
      adapter-Begun w w₁ same =
          let (alive, here, gone) = open_or_create-OpensOne (text "Demo") tunnel_type guid w₁ in
          elim (run-cases (there w₁)) [
            | inr (inr (w', r)) ↦ absurd (alive (ap (λ x. x.0) r))
            | inr (inl (e, w', r)) ↦ rw r (
                inr (
                  e,
                  refl,
                  opened-of (there w₁) (err e) w' (opened n.helper w.trace) r
                      (gone e (ap (λ x. x.0) r) ∙ same),
                ))
            | inl (a, w', r) ↦ rw r (
                goes_on a w w' (
                  opened-of (there w₁) (ok a) w' (a.handle ∷ opened n.helper w.trace) r
                    (here a (ap (λ x. x.0) r) ∙ ap (λ xs. a.handle ∷ xs) same)))
          ]

      pub program-Begun :
          (w : World)
          → Begun n.helper w ((attempt (running_version n.platform) >>= λ v. there >>= body) w)
      program-Begun w =
          let (same, alive) = running_version-opened w in
          elim (run-cases (running_version n.platform w)) [
            | inr (inr (w₁, r)) ↦ absurd (alive (ap (λ x. x.0) r))
            | inr (inl (e, w₁, r)) ↦ rw r (
                adapter-Begun w w₁ (
                  opened-of (running_version n.platform w) (err e) w₁ (opened n.helper w.trace) r
                    same))
            | inl (v, w₁, r) ↦ rw r (
                adapter-Begun w w₁ (
                  opened-of (running_version n.platform w) (ok v) w₁ (opened n.helper w.trace) r
                    same))
          ]

    pub begin-Begun : (w : World) → Begun n.helper w (begin n registry fuel w)
    unfolding begin
    begin-Begun w =
        program-Begun (text "Example") none
          (λ adapter. or_drop n registry fuel adapter (running_version n.platform) >>= λ v.
            or_drop n registry fuel adapter (start_session_on n.platform adapter max_ring_capacity))
          version-Begun w
