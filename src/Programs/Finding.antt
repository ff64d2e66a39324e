-- ===== src/Programs/Finding.antt =====
-- examples/basic.rs, as the other programs under examples: which library `main` loads.
pub mod Guarded
use wintun_bindings.Base.{Bool, Text, text, if◌then◌else◌, ◌⊎◌}
use wintun_bindings.Bindings.{Wintun}
use wintun_bindings.Failure.{Error, IoError, io}
use wintun_bindings.Loading.{Dlls, load_from_path}
use wintun_bindings.System.{Trace, M, ◌>>=◌, pure, map_err, from_result, observe}
use wintun_bindings.Util.DllPath.{Arch, get_wintun_bin_pattern_path}
use wintun_bindings.Util.Utf16.{encode_utf16}

-- `std::fs::exists`
pub record Files : Type 0 where
  pub exists : Trace → Text → IoError ⊎ Bool

-- The DLL of the repository for the architecture, or the one that Windows finds if that is not there.
unfoldable pub find_dll : Arch → Files → M Error Text
find_dll arch files = do
  dll_path ← map_err io (from_result (get_wintun_bin_pattern_path arch))
  answer ← observe (λ t. files.exists t dll_path)
  there ← map_err io (from_result answer)
  pure (if there then dll_path else text "wintun.dll")

unfoldable pub load_found : Dlls → Arch → Files → M Error Wintun
unfolding find_dll load_from_path
load_found d arch files = do
  dll_path ← find_dll arch files
  load_from_path d (encode_utf16 dll_path)
