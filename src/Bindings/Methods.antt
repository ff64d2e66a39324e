-- ===== src/Bindings/Methods.antt =====
-- That each method of `wintun` in src/wintun_raw.rs calls the function of its name.
use wintun_bindings.Base.{
  ℕ, refl, Text, List, text, ◌≡◌, inr, ok, ◌⊎◌, get_elem?, some, inl, err, ◌∷◌, [], arith, map,
  Sum-cases, suc, zero,
}
use wintun_bindings.Bindings.{
  Libraries, Method, Wintun, callee, to_create_adapter, from_library, to_close_adapter,
  to_open_adapter, to_get_adapter_luid, to_get_running_driver_version, to_delete_driver,
  to_set_logger, to_start_session, to_end_session, to_get_read_wait_event, to_receive_packet,
  to_release_receive_packet, to_allocate_send_packet, to_send_packet,
}
use wintun_bindings.Bindings.Complete.{addresses, exports, functions, from_library-addresses}
use wintun_bindings.System.{World, Trace, close_library}

-- The names of the methods.
abbrev pub method_name : Method → Text
method_name to_create_adapter = text "WintunCreateAdapter"
method_name to_close_adapter = text "WintunCloseAdapter"
method_name to_open_adapter = text "WintunOpenAdapter"
method_name to_get_adapter_luid = text "WintunGetAdapterLUID"
method_name to_get_running_driver_version = text "WintunGetRunningDriverVersion"
method_name to_delete_driver = text "WintunDeleteDriver"
method_name to_set_logger = text "WintunSetLogger"
method_name to_start_session = text "WintunStartSession"
method_name to_end_session = text "WintunEndSession"
method_name to_get_read_wait_event = text "WintunGetReadWaitEvent"
method_name to_receive_packet = text "WintunReceivePacket"
method_name to_release_receive_packet = text "WintunReleaseReceivePacket"
method_name to_allocate_send_packet = text "WintunAllocateSendPacket"
method_name to_send_packet = text "WintunSendPacket"

-- The methods, in the order of the exports.
abbrev methods : List Method
methods =
    to_create_adapter ∷ to_close_adapter ∷ to_open_adapter ∷ to_get_adapter_luid
    ∷ to_get_running_driver_version ∷ to_delete_driver ∷ to_set_logger ∷ to_start_session
    ∷ to_end_session ∷ to_get_read_wait_event ∷ to_receive_packet ∷ to_release_receive_packet
    ∷ to_allocate_send_packet ∷ to_send_packet ∷ []

module _ (libraries : Libraries) (t : Trace) (library : ℕ) where
  addresses-cons :
      (n : Text) (names : List Text) (found : List ℕ)
      → addresses libraries t library (n ∷ names) ≡ inr found
      → (b : ℕ) × (rest : List ℕ) × (libraries.symbol t library n ≡ inr b)
        × (addresses libraries t library names ≡ inr rest)
        × (found ≡ b ∷ rest)
  addresses-cons n names found h = elim (Sum-cases (libraries.symbol t library n)) [
    | inl (e, z) ↦ absurd (ground (arith, z, h))
    | inr (b, z) ↦ elim (Sum-cases (addresses libraries t library names)) [
      | inl (e, y) ↦ absurd (ground (arith, z, y, h))
      | inr (rest, y) ↦ (b, rest, z, y, ground (arith, z, y, h))
    ]
  ]

  addresses-get_elem :
      (names : List Text) (found : List ℕ) (i : ℕ) (name : Text) (a : ℕ)
      → addresses libraries t library names ≡ inr found
      → get_elem? names i ≡ some name
      → get_elem? found i ≡ some a
      → libraries.symbol t library name ≡ inr a
  addresses-get_elem [] found i name a h here there = absurd (ground (arith, here))
  addresses-get_elem (n ∷ names) found zero name a h here there =
      let (b, rest, z, y, same) = addresses-cons n names found h in
      ground (arith, z, same, here, there)
  addresses-get_elem (n ∷ names) found (suc i) name a h here there =
      let (b, rest, z, y, same) = addresses-cons n names found h in
      addresses-get_elem names rest i name a y here (ground (arith, same, there))

  addresses-missing :
      (ms : List Method) (e : Text)
      → addresses libraries t library (map method_name ms) ≡ inl e
      → (m : Method) × (libraries.symbol t library (method_name m) ≡ inl e)
  addresses-missing [] e h = absurd (ground (arith, h))
  addresses-missing (m ∷ ms) e h = elim (Sum-cases (libraries.symbol t library (method_name m))) [
    | inl (e', z) ↦ (m, ground (arith, z, h))
    | inr (a, z) ↦ elim (Sum-cases (addresses libraries t library (map method_name ms))) [
      | inl (e', y) ↦ addresses-missing ms e (ground (arith, z, y, h))
      | inr (rest, y) ↦ absurd (ground (arith, z, y, h))
    ]
  ]

  callee-symbol :
      (w : Wintun) (m : Method)
      → addresses libraries t library exports ≡ inr (functions w)
      → libraries.symbol t library (method_name m) ≡ inr (callee w m)
  unfolding callee
  callee-symbol w to_create_adapter h = addresses-get_elem exports (functions w) 0 _ _ h refl refl
  callee-symbol w to_close_adapter h = addresses-get_elem exports (functions w) 1 _ _ h refl refl
  callee-symbol w to_open_adapter h = addresses-get_elem exports (functions w) 2 _ _ h refl refl
  callee-symbol w to_get_adapter_luid h = addresses-get_elem exports (functions w) 3 _ _ h refl refl
  callee-symbol w to_get_running_driver_version h =
      addresses-get_elem exports (functions w) 4 _ _ h refl refl
  callee-symbol w to_delete_driver h = addresses-get_elem exports (functions w) 5 _ _ h refl refl
  callee-symbol w to_set_logger h = addresses-get_elem exports (functions w) 6 _ _ h refl refl
  callee-symbol w to_start_session h = addresses-get_elem exports (functions w) 7 _ _ h refl refl
  callee-symbol w to_end_session h = addresses-get_elem exports (functions w) 8 _ _ h refl refl
  callee-symbol w to_get_read_wait_event h =
      addresses-get_elem exports (functions w) 9 _ _ h refl refl
  callee-symbol w to_receive_packet h = addresses-get_elem exports (functions w) 10 _ _ h refl refl
  callee-symbol w to_release_receive_packet h =
      addresses-get_elem exports (functions w) 11 _ _ h refl refl
  callee-symbol w to_allocate_send_packet h =
      addresses-get_elem exports (functions w) 12 _ _ h refl refl
  callee-symbol w to_send_packet h = addresses-get_elem exports (functions w) 13 _ _ h refl refl

-- From a library that is open comes either a `wintun` on it, of which each method calls the function
-- that the library exports under the name of the method, or an error, after which the library is
-- closed; an error only comes if one of the 14 functions is missing.
pub from_library-methods :
    (libraries : Libraries) (library : ℕ) (w : World)
    → ((wintun : Wintun) × (from_library libraries library w ≡ (ok wintun, w))
        × (wintun.library ≡ library)
        × ((m : Method) → libraries.symbol w.trace library (method_name m) ≡ inr (callee wintun m)))
      ⊎ ((e : Text) × (m : Method) × (libraries.symbol w.trace library (method_name m) ≡ inl e)
          × (from_library libraries library w
              ≡ (err e, record w { trace = close_library library ∷ w.trace })))
from_library-methods libraries library w = elim (from_library-addresses libraries library w) [
  | inl (wintun, run, same, order) ↦
      inl (wintun, run, same, λ m. callee-symbol libraries w.trace library wintun m order)
  | inr (e, missing, run) ↦
      let (m, gone) = addresses-missing libraries w.trace library methods e missing in
      inr (e, m, gone, run)
]
