-- ===== src/Bindings/Complete.antt =====
-- Which libraries src/wintun_raw.rs accepts, and what becomes of the others.
use wintun_bindings.Base.{
  ap, ◌∙◌, Sum-cases, ℕ, List, [], ◌∷◌, ◌≡◌, ◌⊎◌, inl, inr, ok, err, Text, text, arith, refl,
}
use wintun_bindings.Bindings.{Libraries, Wintun, resolve, get_symbol, from_library, new_from_path}
use wintun_bindings.System.{World, Trace, open_library, close_library, ◌>>=◌, M, pure}

-- The functions that the driver must export.
abbrev pub exports : List Text
exports =
    text "WintunCreateAdapter"
    ∷ text "WintunCloseAdapter"
    ∷ text "WintunOpenAdapter"
    ∷ text "WintunGetAdapterLUID"
    ∷ text "WintunGetRunningDriverVersion"
    ∷ text "WintunDeleteDriver"
    ∷ text "WintunSetLogger"
    ∷ text "WintunStartSession"
    ∷ text "WintunEndSession"
    ∷ text "WintunGetReadWaitEvent"
    ∷ text "WintunReceivePacket"
    ∷ text "WintunReleaseReceivePacket"
    ∷ text "WintunAllocateSendPacket"
    ∷ text "WintunSendPacket"
    ∷ []

-- The functions of a `Wintun`, in the order of the exports.
abbrev pub functions : Wintun → List ℕ
functions w =
    w.wintun_create_adapter ∷ w.wintun_close_adapter ∷ w.wintun_open_adapter
    ∷ w.wintun_get_adapter_luid ∷ w.wintun_get_running_driver_version ∷ w.wintun_delete_driver
    ∷ w.wintun_set_logger ∷ w.wintun_start_session ∷ w.wintun_end_session
    ∷ w.wintun_get_read_wait_event ∷ w.wintun_receive_packet ∷ w.wintun_release_receive_packet
    ∷ w.wintun_allocate_send_packet ∷ w.wintun_send_packet ∷ []

module _ (libraries : Libraries) where
  -- The addresses of the names, or the error of the first that is missing.
  abbrev pub addresses : Trace → ℕ → List Text → Text ⊎ List ℕ
  addresses t library [] = inr []
  addresses t library (name ∷ names) = elim (libraries.symbol t library name) [
    | inl e ↦ inl e
    | inr a ↦ elim (addresses t library names) [ inl e ↦ inl e | inr as' ↦ inr (a ∷ as') ]
  ]

  -- A lookup of names gives their addresses, added to those found before, or the error of the
  -- first that is missing.
  unfoldable Agrees : ℕ → World → List Text → (List ℕ → List ℕ) → M Text Wintun → Type 0
  Agrees library w names before m =
      ((wintun : Wintun) × (as' : List ℕ) × (m w ≡ (ok wintun, w))
        × (addresses w.trace library names ≡ inr as')
        × (wintun.library ≡ library)
        × (functions wintun ≡ before as'))
      ⊎ ((e : Text) × (m w ≡ (err e, w)) × (addresses w.trace library names ≡ inl e))

  get_symbol-Agrees :
      (library : ℕ) (w : World) (name : Text) (names : List Text) (before : List ℕ → List ℕ)
      (k : ℕ → M Text Wintun)
      → ((a : ℕ) → Agrees library w names (λ as'. before (a ∷ as')) (k a))
      → Agrees library w (name ∷ names) before (get_symbol libraries library name >>= k)
  unfolding get_symbol Agrees
  get_symbol-Agrees library w name names before k next =
      elim (Sum-cases (libraries.symbol w.trace library name)) [
        | inl (e, z) ↦ inr (e, ground (arith, z), ground (arith, z))
        | inr (a, z) ↦ elim (next a) [
          | inl (wintun, as', runs, found, same, order) ↦ inl (
            wintun,
            a ∷ as',
            ground (arith, z, runs, found),
            ground (arith, z, runs, found),
            same,
            order,
          )
          | inr (e, runs, found) ↦
              inr (e, ground (arith, z, runs, found), ground (arith, z, runs, found))
        ]
      ]

  pure-Agrees :
      (library : ℕ) (w : World) (before : List ℕ → List ℕ) (wintun : Wintun)
      → wintun.library ≡ library
      → functions wintun ≡ before []
      → Agrees library w [] before (pure wintun)
  unfolding Agrees
  pure-Agrees library w before wintun same order = inl (wintun, [], refl, refl, same, order)

  resolve-Agrees :
      (library : ℕ) (w : World) → Agrees library w exports (λ as'. as') (resolve libraries library)
  unfolding resolve
  resolve-Agrees library w =
      let look = get_symbol-Agrees library w in
      look _ _ _ _ λ create. look _ _ _ _ λ close. look _ _ _ _ λ opens. look _ _ _ _ λ luid.
        look _ _ _ _ λ version. look _ _ _ _ λ delete. look _ _ _ _ λ logger. look _ _ _ _ λ start.
          look _ _ _ _ λ end_it. look _ _ _ _ λ wait_event. look _ _ _ _ λ receive.
            look _ _ _ _ λ release.
              look _ _ _ _ λ allocate. look _ _ _ _ λ send. pure-Agrees library w _ _ refl refl

  -- A library that is open becomes the functions of the driver exactly if it exports all 14 of them,
  -- each in the field of its name. Otherwise the error is that of the first that is missing, and the
  -- library is closed.
  pub from_library-addresses :
      (library : ℕ) (w : World)
      → ((wintun : Wintun) × (from_library libraries library w ≡ (ok wintun, w))
          × (wintun.library ≡ library)
          × (addresses w.trace library exports ≡ inr (functions wintun)))
        ⊎ ((e : Text) × (addresses w.trace library exports ≡ inl e)
            × (from_library libraries library w
                ≡ (err e, record w { trace = close_library library ∷ w.trace })))
  unfolding from_library Agrees
  from_library-addresses library w = elim (resolve-Agrees library w) [
    | inl (wintun, as', runs, found, same, order) ↦
        inl (wintun, ground (arith, runs), same, rw order found)
    | inr (e, runs, found) ↦ inr (e, found, ground (arith, runs))
  ]

  -- What `new_from_path` ends in, and the calls that it makes.
  pub new_from_path-addresses :
      (path : List ℕ) (w : World)
      → let opened = record w { trace = open_library path ∷ w.trace } in
        ((e : Text) × (new_from_path libraries path w ≡ (err e, opened)))
        ⊎ ((wintun : Wintun) × (libraries.open_result w.trace path ≡ inr wintun.library)
            × (addresses opened.trace wintun.library exports ≡ inr (functions wintun))
            × (new_from_path libraries path w ≡ (ok wintun, opened)))
        ⊎ ((library : ℕ) × (e : Text) × (libraries.open_result w.trace path ≡ inr library)
            × (addresses opened.trace library exports ≡ inl e)
            × (new_from_path libraries path w ≡ (
              err e,
              record w { trace = close_library library ∷ open_library path ∷ w.trace },
            )))
  unfolding new_from_path
  new_from_path-addresses path w = elim (Sum-cases (libraries.open_result w.trace path)) [
    | inl (e, z) ↦ inl (e, ground (arith, z))
    | inr (library, z) ↦
        elim (from_library-addresses library (record w { trace = open_library path ∷ w.trace })) [
          | inl (wintun, runs, same, order) ↦ inr (
              inl (
                wintun,
                cc (z, same),
                ap (λ l. addresses (open_library path ∷ w.trace) l exports) same ∙ order,
                ground (arith, z, runs),
              ))
          | inr (e, missing, runs) ↦ inr (inr (library, e, z, missing, ground (arith, z, runs)))
        ]
  ]
