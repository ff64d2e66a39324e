-- ===== src/Loading/Quiet.antt =====
-- Which functions that src/lib.rs calls before it opens a library load or free one.
use wintun_bindings.Base.{ℕ, List, [], ◌∷◌, ◌≡◌, ◌⊎◌, inl, inr, ok, arith, ◌≢◌}
use wintun_bindings.Loading.{Dlls}
use wintun_bindings.Signature.Path.{get_dll_absolute_path}
use wintun_bindings.Signature.Signer.{get_signer_name, get_certificate_name, find_signer}
use wintun_bindings.Signature.Trust.{verify_signature, terminated}
use wintun_bindings.Signature.Trust.Closing.{verify_signature-closes}
use wintun_bindings.System.{
  World, Trace, open_library, close_library, ◌>>=◌, run-cases, M, map_err, free_library,
  load_library,
}

-- The calls among those of a trace that load or free a library, by `libloading` or by the loader of
-- Windows.
unfoldable pub library_calls : Trace → Trace
library_calls [] = []
library_calls (open_library path ∷ t) = open_library path ∷ library_calls t
library_calls (close_library library ∷ t) = close_library library ∷ library_calls t
library_calls (load_library path ∷ t) = load_library path ∷ library_calls t
library_calls (free_library library ∷ t) = free_library library ∷ library_calls t
library_calls (c ∷ t) = library_calls t

module _ (d : Dlls) (file : List ℕ) (w : World) where
  pub path-calls :
      library_calls (get_dll_absolute_path d.platform d.loader file w).1.trace
      ≡ free_library (d.loader.library w.trace (terminated file))
        ∷ load_library (terminated file)
        ∷ library_calls w.trace
  unfolding library_calls get_dll_absolute_path
  path-calls = ground arith

  pub verify-calls :
      library_calls (verify_signature d.platform d.trust file w).1.trace ≡ library_calls w.trace
  unfolding library_calls
  verify-calls = ground (arith, verify_signature-closes d.platform d.trust file w)

  pub signer-calls :
      library_calls (get_signer_name d.platform d.crypt file w).1.trace ≡ library_calls w.trace
  unfolding library_calls get_signer_name get_certificate_name find_signer
  signer-calls = ground (arith)

-- A run either ends in a value for which `P` holds, or in none; either way the libraries that were loaded
-- and freed by then are `calls`.
unfoldable pub Guarded : {E A : Type 0} → Trace → (A → World → Type 0) → M E A → World → Type 0
Guarded {E} {A} calls P m w =
    (((a : A) → (m w).0 ≢ ok a) × (library_calls (m w).1.trace ≡ calls))
    ⊎ ((a : A) × (w' : World) × P a w' × (library_calls w'.trace ≡ calls) × (m w ≡ (ok a, w')))

module _ (calls : Trace) where
  pub Guarded-of_calls :
      {E A : Type 0} (m : M E A) (w : World)
      → library_calls (m w).1.trace ≡ calls
      → Guarded calls (λ a w'. m w ≡ (ok a, w')) m w
  unfolding Guarded
  Guarded-of_calls m w h = elim (run-cases (m w)) [
    | inl (a, w', z) ↦ inr (a, w', z, cc (h, z), z)
    | inr (inl (e, w', z)) ↦ inl (λ a. ground (arith, z), h)
    | inr (inr (w', z)) ↦ inl (λ a. ground (arith, z), h)
  ]

  pub stops :
      {E A B : Type 0} (m : M E A) (k : A → M E B) (w : World)
      → ((a : A) → (m w).0 ≢ ok a)
      → library_calls (m w).1.trace ≡ calls
      → ((b : B) → ((m >>= k) w).0 ≢ ok b) × (library_calls ((m >>= k) w).1.trace ≡ calls)
  stops m k w never same = elim (run-cases (m w)) [
    | inl (a, w', z) ↦ absurd (never a (ground (arith, z)))
    | inr (inl (e, w', z)) ↦ (λ b. ground (arith, z), ground (arith, z, same))
    | inr (inr (w', z)) ↦ (λ b. ground (arith, z), ground (arith, z, same))
  ]

  pub Guarded->>= :
      {E A B : Type 0} (P : A → World → Type 0) (Q : B → World → Type 0) (m : M E A) (k : A → M E B)
      (w : World)
      → Guarded calls P m w
      → ((a : A) (w' : World) → P a w' → library_calls w'.trace ≡ calls → Guarded calls Q (k a) w')
      → Guarded calls Q (m >>= k) w
  unfolding Guarded
  Guarded->>= P Q m k w (inl (never, same)) next = inl (stops m k w never same)
  Guarded->>= P Q m k w (inr (a, w', holds, same, runs)) next = elim (next a w' holds same) [
    | inl (never, still) ↦ rw runs (inl (never, still))
    | inr (b, w'', also, still, goes_on) ↦ rw runs (inr (b, w'', also, still, goes_on))
  ]

  pub Guarded-map_err :
      {E F A : Type 0} (P : A → World → Type 0) (f : E → F) (m : M E A) (w : World)
      → Guarded calls P m w
      → Guarded calls P (map_err f m) w
  unfolding Guarded
  Guarded-map_err P f m w (inl (never, same)) = elim (run-cases (m w)) [
    | inl (a, w', z) ↦ absurd (never a (ground (arith, z)))
    | inr (inl (e, w', z)) ↦ inl (λ b. ground (arith, z), ground (arith, z, same))
    | inr (inr (w', z)) ↦ inl (λ b. ground (arith, z), ground (arith, z, same))
  ]
  Guarded-map_err P f m w (inr (a, w', holds, same, runs)) =
      inr (a, w', holds, same, ground (arith, runs))
