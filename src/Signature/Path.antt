-- ===== src/Signature/Path.antt =====
-- src/verify_binary_signature.rs: `get_dll_absolute_path`.
pub mod Located
use wintun_bindings.Base.{ℕ, List, none, some, ◌==◌, ltb, if◌then◌else◌}
use wintun_bindings.Failure.{IoError, message, other}
use wintun_bindings.Signature.Signer.{buffer}
use wintun_bindings.Signature.Trust.{terminated}
use wintun_bindings.System.{
  M, ◌>>=◌, ◌>>◌, pure, fail, panics, invoke, observe, tell, Trace, Platform, load_library,
  free_library,
}
use wintun_bindings.Util.LastError.{fail_with_os_error}
use wintun_bindings.Util.Utf16.{encode_utf16, from_utf16, from_utf16_lossy}

-- The Windows loader: the handle of a library that is loaded, and the file name of a module, whose
-- null handle is the program itself, with how much of it is written to a buffer of a size.
pub record Loader : Type 0 where
  pub library : Trace → List ℕ → ℕ
  pub module_name_len : Trace → ℕ → ℕ → ℕ
  pub module_name_unit : Trace → ℕ → ℕ → ℕ

module _ (p : Platform) (loader : Loader) where
  -- A path that is valid text, as the units of that text.
  unfoldable pub as_path : List ℕ → M IoError (List ℕ)
  as_path units = elim (from_utf16 units) [
    | some path ↦ pure (encode_utf16 path)
    | none ↦ fail (message other (from_utf16_lossy units))
  ]

  -- The buffer has 1024 units. Whether the library was loaded is not asked.
  unfoldable pub get_dll_absolute_path : List ℕ → M IoError (List ℕ)
  unfolding as_path fail_with_os_error
  get_dll_absolute_path path = do
    let file = terminated path
    lib ← invoke (load_library file) (λ t. loader.library t file)
    len ← observe (λ t. loader.module_name_len t lib 1024)
    units ← observe (λ t. buffer (loader.module_name_unit t lib) 0 len)
    tell (free_library lib)
    if len == 0 then fail_with_os_error p else if ltb 1024 len then panics else as_path units
