-- ===== src/Loading.antt =====
-- src/lib.rs: how wintun.dll is loaded, and that its signature is verified before.
pub mod Quiet
pub mod Guard
use wintun_bindings.Base.{ℕ, List, Text, text, text_eq, ◌++◌, if◌then◌else◌}
use wintun_bindings.Bindings.{Libraries, Wintun, from_library, new_from_path}
use wintun_bindings.Failure.{Error, io, string, lib_loading}
use wintun_bindings.Signature.Path.{Loader, get_dll_absolute_path}
use wintun_bindings.Signature.Signer.{CryptApi, get_signer_name}
use wintun_bindings.Signature.Trust.{TrustApi, verify_signature}
use wintun_bindings.System.{M, ◌>>=◌, ◌>>◌, pure, fail, map_err, Platform}
use wintun_bindings.Util.Utf16.{encode_utf16}

-- What loading asks of Windows and of `libloading`.
pub record Dlls : Type 0 where
  pub platform : Platform
  pub trust : TrustApi
  pub crypt : CryptApi
  pub loader : Loader
  pub libraries : Libraries

-- `WINTUN_PROVIDER`
abbrev pub wintun_provider : Text
wintun_provider = text "WireGuard LLC"

module _ (d : Dlls) where
  -- The name of the signer is the provider's.
  unfoldable pub check_signer : Text → M Error (Unit {0})
  check_signer signer =
      if text_eq signer wintun_provider
      then pure tt
      else fail (
          string
            (text "Signer \"" ++ signer ++ text "\" not match \"" ++ wintun_provider ++ text "\""))

  -- The block under the feature `verify_binary_signature`.
  unfoldable pub verify_file : List ℕ → M Error (Unit {0})
  unfolding check_signer
  verify_file path = do
    abs_path ← map_err io (get_dll_absolute_path d.platform d.loader path)
    map_err io (verify_signature d.platform d.trust abs_path)
    signer ← map_err io (get_signer_name d.platform d.crypt abs_path)
    check_signer signer

  unfoldable pub load_from_path : List ℕ → M Error Wintun
  unfolding verify_file
  load_from_path path = do
    if d.platform.verify_binary_signature then verify_file path else pure tt
    map_err lib_loading (new_from_path d.libraries path)

  unfoldable pub load : M Error Wintun
  unfolding load_from_path
  load = load_from_path (encode_utf16 (text "wintun"))

  unfoldable pub load_from_library : ℕ → M Error Wintun
  load_from_library library = map_err lib_loading (from_library d.libraries library)
