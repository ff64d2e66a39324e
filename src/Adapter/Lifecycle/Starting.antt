-- ===== src/Adapter/Lifecycle/Starting.antt =====
-- The sessions that src/adapter.rs starts, read off the calls made so far.
use wintun_bindings.Adapter.{Adapter}
use wintun_bindings.Adapter.Lifecycle.{start_session_on, validate_capacity}
use wintun_bindings.Base.{
  inl, inr, ok, ℕ, none, List, ◌≡◌, ◌∷◌, ◌≢◌, arith, if◌then◌else◌, ◌==◌, [], ◌⊎◌, err, Bool-cases,
}
use wintun_bindings.Failure.{Error}
use wintun_bindings.Session.Packet.{Session}
use wintun_bindings.Session.Ring.{erase}
use wintun_bindings.System.{start_session, Platform, Trace, World, end_session, run-cases}

-- The sessions that were started and not ended.
unfoldable pub started : Platform → Trace → List ℕ
started p [] = []
started p (start_session a n ∷ t) =
    let rest = started p t in
    if p.start_session t a n == 0 then rest else p.start_session t a n ∷ rest
started p (end_session a ∷ t) = erase a (started p t)
started p (c ∷ t) = started p t

module _ (p : Platform) (adapter : Adapter) (capacity : ℕ) (w : World) where
  -- The ends of `start_session`.
  abbrev pub StartsOne : Type 0
  StartsOne =
      let r = start_session_on p adapter capacity w in
      let h = p.start_session w.trace adapter.handle capacity in
      ((s : Session) × (r.0 ≡ ok s)
        × (started p r.1.trace ≡ s.inner ∷ started p w.trace)
        × (r.1.cell s.read_event ≡ none)
        × (s.adapter ≡ adapter)
        × (s.shutdown_event ≢ 0))
      ⊎ ((e : Error) × (r.0 ≡ err e)
          × (((validate_capacity capacity w).0 ≢ ok tt) ⊎ (h ≡ 0))
          × (started p r.1.trace ≡ started p w.trace))
      ⊎ ((e : Error) × (r.0 ≡ err e)
          × ((validate_capacity capacity w).0 ≡ ok tt)
          × (h ≢ 0)
          × (p.create_event (start_session adapter.handle capacity ∷ w.trace) ≡ 0)
          × (started p r.1.trace ≡ h ∷ started p w.trace))

  -- `start_session` ends in one of three ways. A session that it returns is started, belongs to the
  -- adapter, has a shutdown event, and has not asked for its read event. On an error no session is
  -- started, as the capacity is refused or the driver gives none; or the driver has started one and its
  -- event cannot be created: that session is neither returned nor ended.
  pub start_session_on-branches : StartsOne
  unfolding start_session_on started
  start_session_on-branches =
      let h = p.start_session w.trace adapter.handle capacity in
      let event = p.create_event (start_session adapter.handle capacity ∷ w.trace) in
      elim (run-cases (start_session_on p adapter capacity w)) [
        | inl (s, w', z) ↦ inl (
          s,
          ground (arith, z),
          ground (arith, z),
          ground (arith, z),
          ground (arith, z),
          ground (arith, z),
        )
        | inr (inl (e, w', z)) ↦ elim (run-cases (validate_capacity capacity w)) [
          | inl (u, w₁, v) ↦ elim (Bool-cases (h == 0)) [
            | inl null ↦
                inr
                  (inl (e, ground (arith, z), inr (ground (arith, null)), ground (arith, v, null)))
            | inr there ↦ inr (
                inr (
                  e,
                  ground (arith, z),
                  ground (arith, v),
                  ground (arith, there),
                  ground (arith, z, v, there),
                  ground (arith, z, v, there),
                ))
          ]
          | inr (inl (e', w₁, v)) ↦
              inr (inl (e, ground (arith, z), inl (λ g. ground (arith, g, v)), ground (arith, v)))
          | inr (inr (w₁, v)) ↦ absurd (ground (arith, v))
        ]
        | inr (inr (w', z)) ↦ absurd (ground (arith, z))
      ]
