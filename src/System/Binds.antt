-- ===== src/System/Binds.antt =====
-- What a run of a function ends in, with the world that it leaves.
use wintun_bindings.Base.{◌≡◌, ◌⊎◌, inl, inr, refl, Outcome, ok, err, panic}
use wintun_bindings.System.State.{World, and_then}
use native.Mathlib.Omega.{arith}

pub run-cases :
    {E A : Type 0} (r : Outcome E A × World)
    → ((a : A) × (w : World) × (r ≡ (ok a, w)))
      ⊎ ((e : E) × (w : World) × (r ≡ (err e, w)))
      ⊎ ((w : World) × (r ≡ (panic, w)))
run-cases (ok a, w) = inl (a, w, refl)
run-cases (err e, w) = inr (inl (e, w, refl))
run-cases (panic, w) = inr (inr (w, refl))

-- Of two functions in turn that end in a value, each does.
pub and_then-ok :
    {E A B : Type 0} (r : Outcome E A × World) (f : A → World → Outcome E B × World) (b : B)
    → (and_then r f).0 ≡ ok b
    → (a : A) × (w : World) × (r ≡ (ok a, w)) × (and_then r f ≡ f a w)
and_then-ok (ok a, w) f b h = (a, w, refl, refl)
and_then-ok (err e, w) f b h = ground arith
and_then-ok (panic, w) f b h = ground arith
