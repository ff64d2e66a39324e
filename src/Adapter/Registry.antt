-- ===== src/Adapter/Registry.antt =====
-- src/adapter.rs: how an adapter is dropped, and with the feature `winreg` forgotten by the registry.
pub mod Cleanup
use wintun_bindings.Adapter.{Adapter}
use wintun_bindings.Adapter.Settings.{Network, name_of}
use wintun_bindings.Base.{
  ℕ, zero, suc, ◌+◌, Option, none, some, ◌⊎◌, inl, inr, Text, text, text_eq, if◌then◌else◌,
}
use wintun_bindings.Failure.{IoError}
use wintun_bindings.System.{
  M, ◌>>=◌, ◌>>◌, pure, tell, observe, attempt, from_result, Trace, close_adapter,
  delete_subkey_all,
}

-- The crate `winreg`. A key is a number; `open_local_machine` opens one below HKEY_LOCAL_MACHINE.
-- `enum_keys` gives, for a key, what the iterator over the names below it answers to its `next`,
-- counted from 0; nothing is its end.
pub record Registry : Type 0 where
  pub open_local_machine : Trace → Text → IoError ⊎ ℕ
  pub enum_keys : Trace → ℕ → ℕ → Option (IoError ⊎ Text)
  pub open_subkey : Trace → ℕ → Text → IoError ⊎ ℕ
  pub get_value : Trace → ℕ → Text → IoError ⊎ Text

abbrev pub profiles_path : Text
profiles_path = text "SOFTWARE\\Microsoft\\Windows NT\\CurrentVersion\\NetworkList\\Profiles"

abbrev pub unmanaged_path : Text
unmanaged_path =
    text "SOFTWARE\\Microsoft\\Windows NT\\CurrentVersion\\NetworkList\\Signatures\\Unmanaged"

module _ (registry : Registry) (dev_name : Text) where
  -- The body of the loop: the key below `key` is deleted if its value is the name of the device.
  unfoldable pub visit_key : ℕ → Text → Text → M IoError (Unit {0})
  visit_key key value sub_key_name = do
    opened ← observe (λ t. registry.open_subkey t key sub_key_name)
    sub_key ← from_result opened
    found ← observe (λ t. registry.get_value t sub_key value)
    elim found [
      | inr s ↦ if text_eq dev_name s then tell (delete_subkey_all key sub_key_name) else pure tt
      | inl e ↦ pure tt
    ]

  -- The loop over the keys. Fuel counts the rounds, a result `none` is a loop that has not ended.
  unfoldable pub visit_keys : ℕ → Text → ℕ → ℕ → M IoError (Option (Unit {0}))
  unfolding visit_key
  visit_keys key value zero i = pure none
  visit_keys key value (suc fuel) i = do
    next ← observe (λ t. registry.enum_keys t key i)
    elim next [
      | none ↦ pure (some tt)
      | some (inl e) ↦ visit_keys key value fuel (i + 1)
      | some (inr name) ↦ do visit_key key value name; visit_keys key value fuel (i + 1)
    ]

  -- One of the two halves of `delete_adapter_info_from_reg`.
  unfoldable pub clean_below : Text → Text → ℕ → M IoError (Option (Unit {0}))
  unfolding visit_keys
  clean_below path value fuel = do
    opened ← observe (λ t. registry.open_local_machine t path)
    key ← from_result opened
    visit_keys key value fuel 0

  unfoldable pub delete_adapter_info_from_reg : ℕ → M IoError (Option (Unit {0}))
  unfolding clean_below
  delete_adapter_info_from_reg fuel = do
    profiles ← clean_below profiles_path (text "ProfileName") fuel
    elim profiles [
      | none ↦ pure none
      | some u ↦ clean_below unmanaged_path (text "Description") fuel
    ]

module _ (n : Network) (registry : Registry) where
  -- `impl Drop for Adapter`, and `delete`, which is that drop.
  unfoldable pub drop_adapter : ℕ → Adapter → M ⊥ (Option (Unit {0}))
  unfolding delete_adapter_info_from_reg
  drop_adapter fuel adapter = do
    name ← attempt (name_of n adapter)
    tell (close_adapter adapter.handle)
    if n.platform.winreg
        then elim name [
          | inr dev_name ↦ do
            done ← attempt (delete_adapter_info_from_reg registry dev_name fuel)
            elim done [ inr ended ↦ pure ended | inl e ↦ pure (some tt) ]
          | inl e ↦ pure (some tt)
        ]
        else pure (some tt)
