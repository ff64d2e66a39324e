-- ===== src/Adapter/Registry/Cleanup.antt =====
-- What the drop of an adapter in src/adapter.rs deletes from the registry, and that it ends.
use wintun_bindings.Adapter.{Adapter}
use wintun_bindings.Adapter.Addresses.{get_name}
use wintun_bindings.Adapter.Registry.{
  Registry, visit_key, visit_keys, clean_below, drop_adapter, delete_adapter_info_from_reg,
  profiles_path, unmanaged_path,
}
use wintun_bindings.Adapter.Settings.{Network, name_of}
use wintun_bindings.Base.{
  ℕ, zero, suc, ◌+◌, ◌≤◌, ◌≡◌, ◌⊎◌, inl, inr, Option, none, some, ok, err, ◌∷◌, Text, text, text_eq,
  arith, ◌<◌, Option-cases, Sum-cases, Bool-cases, text_eq→eq, refl, Outcome, true,
}
use wintun_bindings.Failure.{Error, IoError}
use wintun_bindings.System.{World, Trace, close_adapter, delete_subkey_all, run-cases}

-- The trace goes on with deletions only, each of a key that has just been opened and whose value, the
-- profile's name or the description, was read as the name of the device.
pub data Deletions (registry : Registry) (dev_name : Text) (before : Trace) : Trace → Type 0 where
  stays : Deletions registry dev_name before before
  deletes :
      (t : Trace) (key sub_key : ℕ) (name value : Text)
      → Deletions registry dev_name before t
      → registry.open_subkey t key name ≡ inr sub_key
      → registry.get_value t sub_key value ≡ inr dev_name
      → (value ≡ text "ProfileName") ⊎ (value ≡ text "Description")
      → Deletions registry dev_name before (delete_subkey_all key name ∷ t)

module _ (registry : Registry) (dev_name : Text) where
  visit_key-cases :
      (key : ℕ) (value name : Text) (w : World)
      → let r = visit_key registry dev_name key value name w in
        ((e : IoError) × (r ≡ (err e, w)))
        ⊎ (r ≡ (ok tt, w))
        ⊎ ((sub_key : ℕ) × (registry.open_subkey w.trace key name ≡ inr sub_key)
            × (registry.get_value w.trace sub_key value ≡ inr dev_name)
            × (r ≡ (ok tt, record w { trace = delete_subkey_all key name ∷ w.trace })))
  unfolding visit_key
  visit_key-cases key value name w = elim (Sum-cases (registry.open_subkey w.trace key name)) [
    | inl (e, z) ↦ inl (e, ground (arith, z))
    | inr (sub_key, z) ↦ elim (Sum-cases (registry.get_value w.trace sub_key value)) [
      | inl (e, v) ↦ inr (inl (ground (arith, z, v)))
      | inr (s, v) ↦ elim (Bool-cases (text_eq dev_name s)) [
        | inl same ↦
            inr (inr (sub_key, z, cc (v, text_eq→eq dev_name s same), ground (arith, z, v, same)))
        | inr differs ↦ inr (inl (ground (arith, z, v, differs)))
      ]
    ]
  ]

  -- A run that ends, with an error or not, and has only made deletions.
  abbrev Ends : Trace → Outcome IoError (Option (Unit {0})) × World → Type 0
  Ends before r =
      (w' : World) × Deletions registry dev_name before w'.trace
      × (((e : IoError) × (r ≡ (err e, w'))) ⊎ (r ≡ (ok (some tt), w')))

  before_end :
      {A : Type 0} {o : Option A} (n : ℕ) {i : ℕ}
      → (n ≤ i → o ≡ none)
      → (item : A) → o ≡ some item
      → i + 1 ≤ n
  before_end n ends item z = ground (arith, ends, z)

  module _ (before : Trace) (bound : ℕ)
      (ends : (t : Trace) (key i : ℕ) → bound ≤ i → registry.enum_keys t key i ≡ none) where
    visit_keys-Ends :
        (key : ℕ) (value : Text)
        → (value ≡ text "ProfileName") ⊎ (value ≡ text "Description")
        → (fuel i : ℕ) (w : World) → i ≤ bound
        → bound < fuel + i
        → Deletions registry dev_name before w.trace
        → Ends before (visit_keys registry dev_name key value fuel i w)
    unfolding visit_keys
    visit_keys-Ends key value which zero i w g h d = absurd (omega arith)
    visit_keys-Ends key value which (suc fuel) i w g h d =
        let again = visit_keys-Ends key value which fuel (i + 1) in
        elim (Option-cases (registry.enum_keys w.trace key i)) [
          | inl z ↦ rw z (w, d, inr refl)
          | inr (inl e, z) ↦
              let more = before_end bound (ends w.trace key i) (inl e) z in
              rw z (again w more (omega arith) d)
          | inr (inr name, z) ↦
              let more = before_end bound (ends w.trace key i) (inr name) z in
              elim (visit_key-cases key value name w) [
                | inl (e, v) ↦ rw (z, v) (w, d, inl (e, refl))
                | inr (inl v) ↦ rw (z, v) (again w more (omega arith) d)
                | inr (inr (sub_key, opens, reads, v)) ↦
                    rw (z, v)
                      (again (record w { trace = delete_subkey_all key name ∷ w.trace }) more
                        (omega arith) (deletes w.trace key sub_key name value d opens reads which))
              ]
        ]

    clean_below-Ends :
        (path value : Text)
        → (value ≡ text "ProfileName") ⊎ (value ≡ text "Description")
        → (fuel : ℕ) (w : World) → bound < fuel
        → Deletions registry dev_name before w.trace
        → Ends before (clean_below registry dev_name path value fuel w)
    unfolding clean_below
    clean_below-Ends path value which fuel w enough d =
        elim (Sum-cases (registry.open_local_machine w.trace path)) [
          | inl (e, z) ↦ rw z (w, d, inl (e, refl))
          | inr (key, z) ↦
              rw z
                (visit_keys-Ends key value which fuel 0 w (omega arith) (omega (arith, enough)) d)
        ]

    delete_adapter_info_from_reg-Ends :
        (fuel : ℕ) (w : World)
        → bound < fuel
        → Deletions registry dev_name before w.trace
        → Ends before (delete_adapter_info_from_reg registry dev_name fuel w)
    unfolding delete_adapter_info_from_reg
    delete_adapter_info_from_reg-Ends fuel w enough d =
        let (w', d', ending) =
          clean_below-Ends profiles_path (text "ProfileName") (inl refl) fuel w enough d in
        elim ending [
          | inl (e, run) ↦ rw run (w', d', inl (e, refl))
          | inr run ↦
              rw run
                (clean_below-Ends unmanaged_path (text "Description") (inr refl) fuel w' enough d')
        ]

module _ (n : Network) (registry : Registry) where
  get_name-cases :
      (adapter : Adapter) (w : World)
      → ((name : Text) × (name_of n adapter w ≡ (ok name, w)))
        ⊎ ((e : Error) × (name_of n adapter w ≡ (err e, w)))
  unfolding get_name
  get_name-cases adapter w = elim (run-cases (name_of n adapter w)) [
    | inl (name, w', z) ↦ inl (name, ground (arith, z))
    | inr (inl (e, w', z)) ↦ inr (e, ground (arith, z))
    | inr (inr (w', z)) ↦ absurd (ground (arith, z))
  ]

  drop_adapter_runs :
      (fuel : ℕ) (adapter : Adapter) (w w' : World) (name : Text)
      → name_of n adapter w ≡ (ok name, w)
      → n.platform.winreg ≡ true
      → let start = record w { trace = close_adapter adapter.handle ∷ w.trace } in
        let r = delete_adapter_info_from_reg registry name fuel start in
        (((e : IoError) × (r ≡ (err e, w'))) ⊎ (r ≡ (ok (some tt), w')))
        → drop_adapter n registry fuel adapter w ≡ (ok (some tt), w')
  unfolding drop_adapter
  drop_adapter_runs fuel adapter w w' name z on (inl (e, run)) = ground (arith, z, on, run)
  drop_adapter_runs fuel adapter w w' name z on (inr run) = ground (arith, z, on, run)

  -- The drop of an adapter always ends and returns, if each enumeration of keys does within `bound`
  -- rounds: it closes the adapter once, and all that it does after that is to delete keys whose profile
  -- name or description is the name that the adapter had. Nothing is deleted without the feature, nor
  -- if the adapter has no name.
  pub drop_adapter-Deletions :
      (bound : ℕ)
      → ((t : Trace) (key i : ℕ) → bound ≤ i → registry.enum_keys t key i ≡ none)
      → (fuel : ℕ) (adapter : Adapter) (w : World) → bound < fuel
      → let r = drop_adapter n registry fuel adapter w in
        let closed = close_adapter adapter.handle ∷ w.trace in
        (r.0 ≡ ok (some tt))
        × ((r.1.trace ≡ closed)
            ⊎ ((dev_name : Text) × (n.platform.winreg ≡ true)
                × ((name_of n adapter w).0 ≡ ok dev_name)
                × Deletions registry dev_name closed r.1.trace))
  unfolding drop_adapter
  drop_adapter-Deletions bound ends fuel adapter w enough =
      let start = record w { trace = close_adapter adapter.handle ∷ w.trace } in
      elim (get_name-cases adapter w) [
        | inr (e, z) ↦ (ground (arith, z), inl (ground (arith, z)))
        | inl (name, z) ↦ elim (Bool-cases n.platform.winreg) [
          | inr off ↦ (ground (arith, z, off), inl (ground (arith, z, off)))
          | inl on ↦
              let (w', d, ending) =
                delete_adapter_info_from_reg-Ends registry name start.trace bound ends fuel start
                  enough stays in
              rw (drop_adapter_runs fuel adapter w w' name z on ending)
                (refl, inr (name, on, ground (arith, z), d))
        ]
      ]
