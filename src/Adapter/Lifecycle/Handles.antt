-- ===== src/Adapter/Lifecycle/Handles.antt =====
-- The handles of adapters that src/adapter.rs opens, read off the calls made so far.
use mathlib.Core.Path.{subst, sym}
use wintun_bindings.Adapter.{Adapter}
use wintun_bindings.Adapter.Lifecycle.{
  describe_created, or_close, describe_opened, create, create_with, or_explain, open_named,
}
use wintun_bindings.Base.{
  Text, ok, some, inl, inr, text, Option, ℕ, none, List, Outcome, ◌≡◌, ◌∷◌, ◌≢◌, panic, arith, err,
  if◌then◌else◌, ◌==◌, [], Bool-cases,
}
use wintun_bindings.Failure.{Error}
use wintun_bindings.Ffi.{IpHelper}
use wintun_bindings.Log.{set_default_logger_if_unset}
use wintun_bindings.Session.Ring.{erase, erase-cons_self}
use wintun_bindings.System.{
  create_adapter, open_adapter, M, close_adapter, Platform, Trace, World, Call,
}
use wintun_bindings.Util.Guid.{win_guid_to_u128}
use wintun_bindings.Util.Utf16.{to_wide}

-- The adapters that were created or opened and not closed.
unfoldable pub opened : IpHelper → Trace → List ℕ
opened ip [] = []
opened ip (create_adapter name tunnel_type guid ∷ t) =
    let rest = opened ip t in if ip.create_adapter t == 0 then rest else ip.create_adapter t ∷ rest
opened ip (open_adapter name ∷ t) =
    let rest = opened ip t in if ip.open_adapter t == 0 then rest else ip.open_adapter t ∷ rest
opened ip (close_adapter a ∷ t) = erase a (opened ip t)
opened ip (c ∷ t) = opened ip t

-- What an attempt to open an adapter leaves: one adapter more, or the adapters as they were.
abbrev pub OpensOne : IpHelper → World → Outcome Error Adapter × World → Type 0
OpensOne ip w r =
    (r.0 ≢ panic)
    × ((a : Adapter) → r.0 ≡ ok a → opened ip r.1.trace ≡ a.handle ∷ opened ip w.trace)
    × ((e : Error) → r.0 ≡ err e → opened ip r.1.trace ≡ opened ip w.trace)

module _ (p : Platform) (ip : IpHelper) where
  -- The closures make no call that opens or closes, and an adapter that they return has the handle.
  describe_created-trace :
      (handle guid : ℕ) (name : Text) (w : World)
      → ((describe_created p ip handle name guid w).1 ≡ w)
        × ((describe_created p ip handle name guid w).0 ≢ panic)
        × ((a : Adapter) → (describe_created p ip handle name guid w).0 ≡ ok a → a.handle ≡ handle)
  unfolding describe_created
  describe_created-trace handle guid name w = (ground arith, ground arith, λ a e. ground arith)

  describe_opened-trace :
      (handle : ℕ) (name : Text) (w : World)
      → ((describe_opened p ip handle name w).1 ≡ w)
        × ((describe_opened p ip handle name w).0 ≢ panic)
        × ((a : Adapter) → (describe_opened p ip handle name w).0 ≡ ok a → a.handle ≡ handle)
  unfolding describe_opened
  describe_opened-trace handle name w = (ground arith, ground arith, λ a e. ground arith)

  or_close-OpensOne :
      (handle : ℕ) (call : M Error Adapter) (w₀ w : World)
      → opened ip w.trace ≡ handle ∷ opened ip w₀.trace
      → (call w).1 ≡ w
      → (call w).0 ≢ panic
      → ((a : Adapter) → (call w).0 ≡ ok a → a.handle ≡ handle)
      → OpensOne ip w₀ (or_close p ip handle call w)
  unfolding or_close opened
  or_close-OpensOne handle call w₀ w h same alive named =
      (ground arith, λ a e. ground (arith, named a), λ x e. closed x e)
    where
      closed :
          (x : Error)
          → (or_close p ip handle call w).0 ≡ err x
          → opened ip (or_close p ip handle call w).1.trace ≡ opened ip w₀.trace
      closed x e = ground (arith, erase-cons_self handle (opened ip w₀.trace))

  set_default-opened :
      (w : World)
      → let r = set_default_logger_if_unset {E = Error} w in
        (r.0 ≡ ok tt) × (opened ip r.1.trace ≡ opened ip w.trace)
  unfolding set_default_logger_if_unset opened
  set_default-opened w = ground arith

  -- The last part of `create` and `open`, from the handle on.
  explained-OpensOne :
      (handle : ℕ) (prefix : Text) (call : M Error Adapter) (w₀ w : World)
      → (handle ≡ 0 → opened ip w.trace ≡ opened ip w₀.trace)
      → (handle ≢ 0 → opened ip w.trace ≡ handle ∷ opened ip w₀.trace)
      → (call w).1 ≡ w
      → (call w).0 ≢ panic
      → ((a : Adapter) → (call w).0 ≡ ok a → a.handle ≡ handle)
      → OpensOne ip w₀ (or_explain p ip handle prefix call w)
  unfolding or_explain opened
  explained-OpensOne handle prefix call w₀ w hz hn same alive named =
      elim (Bool-cases (handle == 0)) [
        | inl z ↦ rw (z, or_explain) (ground arith, λ a e. ground arith, λ x e. ground arith)
        | inr n ↦
            rw (n, or_explain)
              (or_close-OpensOne handle call w₀ w (hn (ground arith)) same alive named)
      ]

  -- The world in which the handle of a new adapter is judged.
  asked : Call → World → World
  asked c w =
      let w₁ = (set_default_logger_if_unset {E = Error} w).1 in record w₁ { trace = c ∷ w₁.trace }

  create_with_lem :
      (name tunnel_type : Text) (guid : ℕ) (w : World)
      → let h = ip.create_adapter (set_default_logger_if_unset {E = Error} w).1.trace in
        create_with p ip name tunnel_type guid w
        ≡ or_explain p ip h
            (text "WintunCreateAdapter failed")
            (describe_created p ip h name guid)
            (asked (create_adapter (to_wide name) (to_wide tunnel_type) guid) w)
  unfolding create_with asked
  create_with_lem name tunnel_type guid w = ground arith

  create_with-OpensOne :
      (name tunnel_type : Text) (guid : ℕ) (w : World)
      → OpensOne ip w (create_with p ip name tunnel_type guid w)
  unfolding opened asked
  create_with-OpensOne name tunnel_type guid w =
      let h = ip.create_adapter (set_default_logger_if_unset {E = Error} w).1.trace in
      let w₂ = asked (create_adapter (to_wide name) (to_wide tunnel_type) guid) w in
      let call = describe_created p ip h name guid in
      let (same, alive, named) = describe_created-trace h guid name w₂ in
      subst (OpensOne ip w) (sym (create_with_lem name tunnel_type guid w)) (
        explained-OpensOne h (text "WintunCreateAdapter failed") call w w₂
          (λ z. ground (arith, set_default-opened w)) (λ n. ground (arith, set_default-opened w))
          same alive named)

  create-OpensOne :
      (name tunnel_type : Text) (wanted : Option ℕ) (w : World)
      → OpensOne ip w (create p ip name tunnel_type wanted w)
  unfolding create
  create-OpensOne name tunnel_type (some guid) w = create_with-OpensOne name tunnel_type guid w
  create-OpensOne name tunnel_type none w =
      create_with-OpensOne name tunnel_type (win_guid_to_u128 (ip.uuid_create w.trace)) w

  open_named-OpensOne : (name : Text) (w : World) → OpensOne ip w (open_named p ip name w)
  unfolding open_named opened
  open_named-OpensOne name w =
      let w₁ = (set_default_logger_if_unset {E = Error} w).1 in
      let w₂ : World = record w₁ { trace = open_adapter (to_wide name) ∷ w₁.trace } in
      let h = ip.open_adapter w₁.trace in
      let call = describe_opened p ip h name in
      let run : open_named p ip name w
          ≡ or_explain p ip h (text "WintunOpenAdapter failed") call w₂ =
        ground arith in
      let (same, alive, named) = describe_opened-trace h name w₂ in
      subst (OpensOne ip w) (sym run) (
        explained-OpensOne h (text "WintunOpenAdapter failed") call w w₂
          (λ z. ground (arith, set_default-opened w)) (λ n. ground (arith, set_default-opened w))
          same alive named)

  -- Whatever fails on the way, `create` and `open` leave no adapter open but the one that they return:
  -- on an error the adapters that are open are those from before, and they do not panic.
  pub opening-OpensOne :
      (name tunnel_type : Text) (wanted : Option ℕ) (w : World)
      → OpensOne ip w (create p ip name tunnel_type wanted w)
        × OpensOne ip w (open_named p ip name w)
  opening-OpensOne name tunnel_type wanted w =
      (create-OpensOne name tunnel_type wanted w, open_named-OpensOne name w)

  describe_created-guid :
      (handle guid : ℕ) (name : Text) (w : World) (a : Adapter)
      → (describe_created p ip handle name guid w).0 ≡ ok a
      → a.guid ≡ win_guid_to_u128 (ip.luid_to_guid_value w.trace a.luid)
  unfolding describe_created
  describe_created-guid handle guid name w a e = ground arith

  or_explain-ok :
      (handle : ℕ) (prefix : Text) (call : M Error Adapter) (w : World) (a : Adapter)
      → (or_explain p ip handle prefix call w).0 ≡ ok a
      → ((call w).0 ≡ ok a) × ((or_explain p ip handle prefix call w).1 ≡ (call w).1)
  unfolding or_explain
  or_explain-ok handle prefix call w a e = ground arith

  create_with-guid :
      (name tunnel_type : Text) (guid : ℕ) (w : World) (a : Adapter)
      → (create_with p ip name tunnel_type guid w).0 ≡ ok a
      → a.guid
        ≡ win_guid_to_u128
            (ip.luid_to_guid_value (create_with p ip name tunnel_type guid w).1.trace a.luid)
  create_with-guid name tunnel_type guid w a e =
      let h = ip.create_adapter (set_default_logger_if_unset {E = Error} w).1.trace in
      let w₂ = asked (create_adapter (to_wide name) (to_wide tunnel_type) guid) w in
      let run = create_with_lem name tunnel_type guid w in
      let call = describe_created p ip h name guid in
      let (same, _, _) = describe_created-trace h guid name w₂ in
      let (done, world) =
        or_explain-ok h (text "WintunCreateAdapter failed") call w₂ a (rw run at e) in
      rw (run, world, same) (describe_created-guid h guid name w₂ a done)

  -- The GUID of an adapter that `create` returns is the one that Windows gives for its LUID, also
  -- where another one was asked for.
  pub create-guid :
      (name tunnel_type : Text) (wanted : Option ℕ) (w : World) (a : Adapter)
      → (create p ip name tunnel_type wanted w).0 ≡ ok a
      → a.guid
        ≡ win_guid_to_u128
            (ip.luid_to_guid_value (create p ip name tunnel_type wanted w).1.trace a.luid)
  unfolding create
  create-guid name tunnel_type (some guid) w a e = create_with-guid name tunnel_type guid w a e
  create-guid name tunnel_type none w a e =
      create_with-guid name tunnel_type (win_guid_to_u128 (ip.uuid_create w.trace)) w a e
