-- ===== src/Signature/Path/Located.antt =====
-- Which path `get_dll_absolute_path` of src/verify_binary_signature.rs gives.
use wintun_bindings.Base.{
  ℕ, zero, suc, ◌<◌, ◌≤◌, List, ◌∷◌, ok, err, ◌≡◌, arith, Option-cases, ◌+◌, inl, inr, ◌⊎◌, ◌≢◌,
  none, Bool-cases, ◌==◌,
}
use wintun_bindings.Failure.{from_raw_os_error, message, other}
use wintun_bindings.Signature.Path.{Loader, get_dll_absolute_path, as_path}
use wintun_bindings.Signature.Signer.{buffer}
use wintun_bindings.Signature.Trust.{terminated}
use wintun_bindings.System.{World, Platform, load_library, free_library}
use wintun_bindings.Util.Utf16.{from_utf16_lossy, from_utf16}
use wintun_bindings.Util.Utf16.Lossless.{AreUnits, encode_utf16-from_utf16}

buffer-AreUnits : (f : ℕ → ℕ) → ((i : ℕ) → f i < 0x10000) → (i n : ℕ) → AreUnits (buffer f i n)
buffer-AreUnits f h i zero = tt
buffer-AreUnits f h i (suc n) = (h i, buffer-AreUnits f h (i + 1) n)

module _ (p : Platform) (loader : Loader) where
  -- The ends of `get_dll_absolute_path`, each with the library freed.
  abbrev pub Located : List ℕ → World → Type 0
  Located path w =
      let r = get_dll_absolute_path p loader path w in
      let lib = loader.library w.trace (terminated path) in
      let asked = load_library (terminated path) ∷ w.trace in
      let len = loader.module_name_len asked lib 1024 in
      let name = buffer (loader.module_name_unit asked lib) 0 len in
      let freed = record w { trace = free_library lib ∷ asked } in
      ((len ≡ 0) × (r ≡ (err (from_raw_os_error (p.last_error freed.trace)), freed)))
      ⊎ ((len ≢ 0)
          × (from_utf16 name ≡ none)
          × (r ≡ (err (message other (from_utf16_lossy name)), freed)))
      ⊎ ((len ≢ 0) × (from_utf16 name ≢ none) × (r ≡ (ok name, freed)))

  -- The library is freed again, whatever comes of it. If the loader writes 16-bit units, and never more
  -- than the size that it is told, nothing panics, and the result is the file name of the module with
  -- the handle that `LoadLibraryW` gave, which is null where the library was not loaded. The only errors
  -- are the last one of Windows, exactly if the name is empty, and one for a name that is no UTF-16.
  pub get_dll_absolute_path-buffer :
      (path : List ℕ) (w : World)
      → ((lib size : ℕ)
          → loader.module_name_len (load_library (terminated path) ∷ w.trace) lib size ≤ size)
      → ((lib i : ℕ)
          → loader.module_name_unit (load_library (terminated path) ∷ w.trace) lib i < 0x10000)
      → Located path w
  unfolding get_dll_absolute_path as_path
  get_dll_absolute_path-buffer path w short units =
      let asked = load_library (terminated path) ∷ w.trace in
      let lib = loader.library w.trace (terminated path) in
      let len = loader.module_name_len asked lib 1024 in
      let name = buffer (loader.module_name_unit asked lib) 0 len in
      let fits : len ≤ 1024 = short lib 1024 in
      elim (Bool-cases (len == 0)) [
        | inl empty ↦ inl (ground (arith, empty), ground (arith, empty))
        | inr full ↦ elim (Option-cases (from_utf16 name)) [
          | inl z ↦ inr (inl (ground (arith, full), z, ground (arith, full, fits, z)))
          | inr (s, z) ↦
              let same =
                encode_utf16-from_utf16 name s
                  (buffer-AreUnits (loader.module_name_unit asked lib) (units lib) 0 len) z in
              inr (
                inr (
                  ground (arith, full),
                  λ e. ground (arith, e, z),
                  ground (arith, full, fits, z, same),
                ))
        ]
      ]
