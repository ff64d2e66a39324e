-- ===== src/Loading/Guard.antt =====
-- What src/lib.rs has verified by the time that it opens a library.
use wintun_bindings.Base.{
  ℕ, List, ◌∷◌, ◌≡◌, ◌⊎◌, inl, inr, ok, err, Text, arith, refl, ◌≢◌, Bool-cases, text_eq,
  text_eq→eq, ap, true, Outcome, panic, ◌∙◌,
}
use wintun_bindings.Bindings.{Wintun, new_from_path}
use wintun_bindings.Bindings.Complete.{addresses, exports, functions, new_from_path-addresses}
use wintun_bindings.Failure.{IoError, lib_loading, io, Error}
use wintun_bindings.Loading.{Dlls, load_from_path, verify_file, wintun_provider, check_signer}
use wintun_bindings.Loading.Quiet.{
  library_calls, Guarded, Guarded->>=, stops, Guarded-map_err, Guarded-of_calls, path-calls,
  verify-calls, signer-calls,
}
use wintun_bindings.Signature.Path.{get_dll_absolute_path}
use wintun_bindings.Signature.Signer.{get_signer_name}
use wintun_bindings.Signature.Trust.{verify_signature, terminated}
use wintun_bindings.Signature.Trust.Closing.{verify_signature-closes}
use wintun_bindings.System.{
  World, open_library, close_library, ◌>>◌, M, map_err, Trace, free_library, load_library,
}

fails :
    {E A : Type 0} {t : Trace} (r : Outcome E A × World)
    → ((a : A) → r.0 ≢ ok a) × (library_calls r.1.trace ≡ t)
    → (((e : E) × (r.0 ≡ err e)) ⊎ (r.0 ≡ panic)) × (library_calls r.1.trace ≡ t)
fails (ok a, w) (never, same) = absurd (never a refl)
fails (err e, w) (never, same) = (inl (e, refl), same)
fails (panic, w) (never, same) = (inr refl, same)

module _ (d : Dlls) (path : List ℕ) (w : World) where
  -- What has been asked about the file of the library: where it is, that its signature is good, and
  -- who has signed it. The world at the end is the one in which the library is opened.
  abbrev pub Verified : World → Type 0
  Verified w' =
      (file : List ℕ) × (w₁ : World) × (w₂ : World) × (get_dll_absolute_path d.platform d.loader
          path w
        ≡ (ok file, w₁))
      × (d.trust.verify_status w₁.trace (terminated file) ≡ 0)
      × (get_signer_name d.platform d.crypt file w₂ ≡ (ok wintun_provider, w'))

  -- To locate the file, Windows loads the library and frees it again.
  abbrev pub looked_up : Trace
  looked_up =
      free_library (d.loader.library w.trace (terminated path))
      ∷ load_library (terminated path)
      ∷ library_calls w.trace

  -- A function of the crate after which nothing else was loaded or freed.
  quiet :
      {A : Type 0} (m : M IoError A) (w : World)
      → library_calls (m w).1.trace ≡ looked_up
      → Guarded looked_up (λ a w'. m w ≡ (ok a, w')) (map_err io m) w
  quiet m w h =
      Guarded-map_err looked_up (λ a w'. m w ≡ (ok a, w')) io m w (Guarded-of_calls looked_up m w h)

  check_signer-Guarded :
      (file : List ℕ) (w₁ w₂ w₃ : World) (signer : Text)
      → get_dll_absolute_path d.platform d.loader path w ≡ (ok file, w₁)
      → verify_signature d.platform d.trust file w₁ ≡ (ok tt, w₂)
      → get_signer_name d.platform d.crypt file w₂ ≡ (ok signer, w₃)
      → library_calls w₃.trace ≡ looked_up
      → Guarded looked_up (λ u w'. Verified w') (check_signer d signer) w₃
  unfolding check_signer Guarded
  check_signer-Guarded file w₁ w₂ w₃ signer located judged signed same =
      elim (Bool-cases (text_eq signer wintun_provider)) [
        | inl z ↦
            let name = text_eq→eq signer wintun_provider z in
            inr (
              tt,
              w₃,
              (
                file,
                w₁,
                w₂,
                located,
                (verify_signature-closes d.platform d.trust file w₁).0.0 (ap (λ r. r.0) judged),
                cc (signed, name),
              ),
              same,
              ground (arith, z),
            )
        | inr z ↦ inl (λ u. ground (arith, z), ground (arith, z, same))
      ]

  verify_file-Guarded : Guarded looked_up (λ u w'. Verified w') (verify_file d path) w
  unfolding verify_file
  verify_file-Guarded =
      let locate = get_dll_absolute_path d.platform d.loader path in
      Guarded->>= looked_up (λ file w₁. locate w ≡ (ok file, w₁)) (λ u w'. Verified w')
        (map_err io locate) _ w (quiet locate w (path-calls d path w))
        λ file w₁ located same₁.
          let judge_it = verify_signature d.platform d.trust file in
          Guarded->>= looked_up (λ u w₂. judge_it w₁ ≡ (ok u, w₂)) (λ u w'. Verified w')
            (map_err io judge_it) _ w₁ (quiet judge_it w₁ (verify-calls d file w₁ ∙ same₁))
            λ u w₂ judged same₂.
              let sign = get_signer_name d.platform d.crypt file in
              Guarded->>= looked_up (λ name w₃. sign w₂ ≡ (ok name, w₃)) (λ u w'. Verified w')
                (map_err io sign) _ w₂ (quiet sign w₂ (signer-calls d file w₂ ∙ same₂))
                λ signer w₃ signed same₃.
                  check_signer-Guarded file w₁ w₂ w₃ signer located judged signed same₃

  load_from_path_verifies :
      d.platform.verify_binary_signature ≡ true
      → load_from_path d path w
        ≡ (verify_file d path >> map_err lib_loading (new_from_path d.libraries path)) w
  unfolding load_from_path
  load_from_path_verifies on = ground (arith, on)

  -- Every load has the library loaded by Windows and freed again, to locate its file. It loads no other,
  -- and is an error or a panic; or it opens the library, after its file was located, its signature was
  -- found good, and its signer was the provider. The library is left open if it exports all functions,
  -- which are those of the result, and is closed again if one is missing.
  abbrev pub Loads : Outcome Error Wintun × World → Type 0
  Loads r =
      ((((e : Error) × (r.0 ≡ err e)) ⊎ (r.0 ≡ panic)) × (library_calls r.1.trace ≡ looked_up))
      ⊎ ((w' : World) × Verified w'
          × (library_calls w'.trace ≡ looked_up)
          × (((e : Text) × (r
                  ≡ (err (lib_loading e), record w' { trace = open_library path ∷ w'.trace })))
              ⊎ ((wintun : Wintun) × (d.libraries.open_result w'.trace path ≡ inr wintun.library)
                  × (addresses d.libraries (open_library path ∷ w'.trace) wintun.library exports
                      ≡ inr (functions wintun))
                  × (r ≡ (ok wintun, record w' { trace = open_library path ∷ w'.trace })))
              ⊎ ((library : ℕ) × (e : Text) × (d.libraries.open_result w'.trace path ≡ inr library)
                  × (r ≡ (
                    err (lib_loading e),
                    record w' { trace = close_library library ∷ open_library path ∷ w'.trace },
                  )))))

  pub load_from_path-Loads :
      d.platform.verify_binary_signature ≡ true → Loads (load_from_path d path w)
  unfolding Guarded
  load_from_path-Loads on = elim verify_file-Guarded [
    | inl (never, same) ↦ inl (
        fails (load_from_path d path w)
          (rw (load_from_path_verifies on) (stops looked_up (verify_file d path) _ w never same)))
    | inr (u, w', verified, same, runs) ↦ inr (
      w',
      verified,
      same,
      elim (new_from_path-addresses d.libraries path w') [
        | inl (e, opens) ↦ inl (e, ground (arith, load_from_path_verifies on, runs, opens))
        | inr (inl (wintun, opened, order, opens)) ↦
            inr
              (inl (wintun, opened, order, ground (arith, load_from_path_verifies on, runs, opens)))
        | inr (inr (library, e, opened, missing, opens)) ↦
            inr (inr (library, e, opened, ground (arith, load_from_path_verifies on, runs, opens)))
      ],
    )
  ]
