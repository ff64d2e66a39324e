-- ===== src/FnHolder/Once.antt =====
-- The uses of a function of src/fn_holder.rs.
use mathlib.Core.Option
use wintun_bindings.Base.{
  ◌≡◌, ◌⊎◌, inl, inr, Option, none, some, ◌∷◌, ℕ, Text, ok, arith, refl, Bool-cases, Sum-cases,
  true, ◌++◌, ◌==◌, [], ap,
}
use wintun_bindings.Bindings.{Libraries}
use wintun_bindings.FnHolder.{FnHolder, load_function, load_fn, has_null}
use wintun_bindings.System.{World, open_library, close_library}
use wintun_bindings.Util.Utf16.{encode_utf16}

-- A null in a text.
abbrev pub HasNull : Text → Type 0
HasNull s = (before : Text) × (after : Text) × (s ≡ before ++ 0 ∷ after)

has_null-HasNull : (s : Text) → has_null s ≡ true → HasNull s
has_null-HasNull [] h = absurd (ground (arith, h))
has_null-HasNull (c ∷ s) h = elim (Bool-cases (c == 0)) [
  | inl z ↦ ([], s, let same : c ≡ 0 = ground (arith, z) in ap (λ x. x ∷ s) same)
  | inr nz ↦
      let (before, after, e) = has_null-HasNull s (ground (arith, h, nz)) in
      (c ∷ before, after, ap (λ xs. c ∷ xs) e)
]

module _ (libraries : Libraries) (module_name function_name : Text) (w : World) where
  load_function-cases :
      let opened = record w { trace = open_library (encode_utf16 module_name) ∷ w.trace } in
      let r = load_function libraries module_name function_name {E = ⊥} w in
      (HasNull function_name × (r ≡ (ok none, w)))
      ⊎ ((e : Text) × (libraries.open_result w.trace (encode_utf16 module_name) ≡ inl e)
          × (r ≡ (ok none, opened)))
      ⊎ ((lib : ℕ) × (e : Text) × (libraries.open_result w.trace (encode_utf16 module_name)
            ≡ inr lib)
          × (libraries.symbol opened.trace lib function_name ≡ inl e)
          × (r ≡ (ok none, record opened { trace = close_library lib ∷ opened.trace })))
      ⊎ ((holder : FnHolder) × (libraries.open_result w.trace (encode_utf16 module_name)
            ≡ inr holder.lib)
          × (libraries.symbol opened.trace holder.lib function_name ≡ inr holder.func)
          × (r ≡ (ok (some holder), opened)))
  unfolding load_function
  load_function-cases =
      let path = encode_utf16 module_name in
      elim (Bool-cases (has_null function_name)) [
        | inl null ↦ inl (has_null-HasNull function_name null, ground (arith, null))
        | inr fine ↦ elim (Sum-cases (libraries.open_result w.trace path)) [
          | inl (e, z) ↦ inr (inl (e, z, ground (arith, fine, z)))
          | inr (lib, z) ↦
              elim (Sum-cases (libraries.symbol (open_library path ∷ w.trace) lib function_name)) [
                | inl (e, v) ↦ inr (inr (inl (lib, e, z, v, ground (arith, fine, z, v))))
                | inr (func, v) ↦ inr (
                    inr (inr (record { lib = lib; func = func }, z, v, ground (arith, fine, z, v))))
              ]
        ]
      ]

  -- What a first use does and leaves, and what a later one in the world `w'` does.
  abbrev pub LoadsOnce : World → Type 0
  LoadsOnce w' =
      let first = load_fn libraries module_name function_name {E = ⊥} none w in
      (held : Option FnHolder) × (first.0 ≡ ok (some held, Option.map (λ holder. holder.func) held))
      × (((holder : FnHolder) × (held ≡ some holder)
            × (libraries.open_result w.trace (encode_utf16 module_name) ≡ inr holder.lib)
            × (libraries.symbol (open_library (encode_utf16 module_name) ∷ w.trace) holder.lib
                  function_name
                ≡ inr holder.func)
            × (first.1.trace ≡ open_library (encode_utf16 module_name) ∷ w.trace))
          ⊎ ((held ≡ none)
              × ((HasNull function_name × (first.1.trace ≡ w.trace))
                  ⊎ ((e : Text) × (libraries.open_result w.trace (encode_utf16 module_name) ≡ inl e)
                      × (first.1.trace ≡ open_library (encode_utf16 module_name) ∷ w.trace))
                  ⊎ ((lib : ℕ) × (e : Text) × (libraries.open_result w.trace
                          (encode_utf16 module_name)
                        ≡ inr lib)
                      × (libraries.symbol (open_library (encode_utf16 module_name) ∷ w.trace) lib
                            function_name
                          ≡ inl e)
                      × (first.1.trace
                          ≡ close_library lib
                            ∷ open_library (encode_utf16 module_name)
                            ∷ w.trace)))))
      × (load_fn libraries module_name function_name {E = ⊥} (some held) w' ≡ (first.0, w'))

  -- The first use of a function opens its library once, which stays open if the function is found there,
  -- and is closed again if it is not; nothing is found where the library cannot be opened, and where the
  -- name of the function has a null, in which case no call is made. Every later use makes no call and
  -- gives the same answer.
  pub load_fn_once : (w' : World) → LoadsOnce w'
  unfolding load_fn
  load_fn_once w' = elim load_function-cases [
    | inl (null, run) ↦ rw run (none, refl, inr (refl, inl (null, refl)), refl)
    | inr (inl (e, opens, run)) ↦ rw run (none, refl, inr (refl, inr (inl (e, opens, refl))), refl)
    | inr (inr (inl (lib, e, opens, missing, run))) ↦
        rw run (none, refl, inr (refl, inr (inr (lib, e, opens, missing, refl))), refl)
    | inr (inr (inr (holder, opens, finds, run))) ↦
        rw run (some holder, refl, inl (holder, refl, opens, finds, refl), refl)
  ]
