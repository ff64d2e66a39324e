-- ===== src/FnHolder.antt =====
-- src/fn_holder.rs: a function that is looked up in a library when it is first used.
pub mod Once
use wintun_bindings.Base.{
  ℕ, Bool, [], ◌∷◌, Option, none, some, inl, inr, Text, ◌==◌, ◌||◌, if◌then◌else◌, false,
}
use wintun_bindings.Bindings.{Libraries}
use wintun_bindings.System.{
  M, ◌>>=◌, ◌>>◌, pure, invoke, observe, tell, open_library, close_library,
}
use wintun_bindings.Util.Utf16.{encode_utf16}
use mathlib.Core.Option

-- `FnHolder`: the library that is kept open, and the address of the function.
pub record FnHolder : Type 0 where
  pub lib : ℕ
  pub func : ℕ

-- `CString::new` refuses a text that contains a null.
abbrev pub has_null : Text → Bool
has_null [] = false
has_null (c ∷ s) = (c == 0) || has_null s

module _ (libraries : Libraries) (module_name function_name : Text) where
  unfoldable pub load_function : {E : Type 0} → M E (Option FnHolder)
  load_function = if has_null function_name then pure none else (do
    opened ←
        invoke (open_library (encode_utf16 module_name))
          (λ t. libraries.open_result t (encode_utf16 module_name))
    elim opened [
      | inl e ↦ pure none
      | inr lib ↦ do
        found ← observe (λ t. libraries.symbol t lib function_name)
        elim found [
          | inl e ↦ do tell (close_library lib); pure none
          | inr func ↦ pure (some (record { lib = lib; func = func }))
        ]
    ])

  -- The function that `define_fn_dynamic_load` defines, with its static before and after.
  unfoldable pub load_fn :
      {E : Type 0} → Option (Option FnHolder) → M E (Option (Option FnHolder) × Option ℕ)
  unfolding load_function
  load_fn (some held) = pure (some held, Option.map (λ holder. holder.func) held)
  load_fn none = do held ← load_function; pure (some held, Option.map (λ holder. holder.func) held)
