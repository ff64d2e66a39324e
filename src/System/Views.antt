-- ===== src/System/Views.antt =====
-- Runs that leave a view of the calls made so far as it was.
use wintun_bindings.Base.{none, some, Option, refl, ◌≡◌, inl, inr, sym, ap, ◌∙◌}
use wintun_bindings.System.Binds.{run-cases}
use wintun_bindings.System.Calls.{Trace}
use wintun_bindings.System.State.{M, World, ◌>>=◌, map_err, pure}

module _ {B : Type 0} (view : Trace → B) where
  -- However the run ends.
  unfoldable pub Leaves : {E A : Type 0} → M E A → Type 0
  Leaves m = (w : World) → view (m w).1.trace ≡ view w.trace

  pub Leaves->>= :
      {E A C : Type 0} (m : M E A) (k : A → M E C)
      → Leaves m
      → ((a : A) → Leaves (k a))
      → Leaves (m >>= k)
  unfolding Leaves
  Leaves->>= m k first next w = elim (run-cases (m w)) [
    | inl (a, w', r) ↦ rw r (next a w' ∙ ap (λ x. view x.1.trace) (sym r) ∙ first w)
    | inr (inl (e, w', r)) ↦ rw r (ap (λ x. view x.1.trace) (sym r) ∙ first w)
    | inr (inr (w', r)) ↦ rw r (ap (λ x. view x.1.trace) (sym r) ∙ first w)
  ]

  pub Leaves-map_err : {E F A : Type 0} (f : E → F) (m : M E A) → Leaves m → Leaves (map_err f m)
  unfolding Leaves
  Leaves-map_err f m first w = elim (run-cases (m w)) [
    | inl (a, w', r) ↦ rw r (ap (λ x. view x.1.trace) (sym r) ∙ first w)
    | inr (inl (e, w', r)) ↦ rw r (ap (λ x. view x.1.trace) (sym r) ∙ first w)
    | inr (inr (w', r)) ↦ rw r (ap (λ x. view x.1.trace) (sym r) ∙ first w)
  ]

  pub Leaves-pure : (E : Type 0) {A : Type 0} (a : A) → Leaves {E = E} (pure a)
  unfolding Leaves
  Leaves-pure E a w = refl

  -- Of two runs, the second where the first gives nothing.
  pub Leaves-or_then :
      {E A : Type 0} (m k : M E (Option A))
      → Leaves m
      → Leaves k
      → Leaves (m >>= λ r. elim r as (λ _. M E (Option A)) [ some a ↦ pure (some a) | none ↦ k ])
  unfolding Leaves
  Leaves-or_then m k first second w = elim (run-cases (m w)) [
    | inl (some a, w', r) ↦ rw r (ap (λ x. view x.1.trace) (sym r) ∙ first w)
    | inl (none, w', r) ↦ rw r (second w' ∙ ap (λ x. view x.1.trace) (sym r) ∙ first w)
    | inr (inl (e, w', r)) ↦ rw r (ap (λ x. view x.1.trace) (sym r) ∙ first w)
    | inr (inr (w', r)) ↦ rw r (ap (λ x. view x.1.trace) (sym r) ∙ first w)
  ]
