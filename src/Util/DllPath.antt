-- ===== src/Util/DllPath.antt =====
-- src/util.rs: where the wintun.dll of this repository for the architecture of a build lies.
use wintun_bindings.Base.{Text, text, ◌⊎◌, inl, inr}
use wintun_bindings.Failure.{IoError, message, other}

-- `target_arch`
pub data Arch : Type 0 where
  x86 x86_64 arm aarch64 unknown_arch : Arch

unfoldable pub get_wintun_bin_pattern_path : Arch → IoError ⊎ Text
get_wintun_bin_pattern_path x86 = inr (text "wintun/bin/x86/wintun.dll")
get_wintun_bin_pattern_path x86_64 = inr (text "wintun/bin/amd64/wintun.dll")
get_wintun_bin_pattern_path arm = inr (text "wintun/bin/arm/wintun.dll")
get_wintun_bin_pattern_path aarch64 = inr (text "wintun/bin/arm64/wintun.dll")
get_wintun_bin_pattern_path unknown_arch = inl (message other (text "Unsupported architecture"))
