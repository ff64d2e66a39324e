-- ===== src/Programs/Finding/Guarded.antt =====
-- Which libraries are loaded, by the crate and by the programs under examples.
use wintun_bindings.Base.{true, ◌≡◌, Outcome, inr, err, ◌⊎◌, Text, text}
use wintun_bindings.Bindings.{Wintun}
use wintun_bindings.Failure.{Error}
use wintun_bindings.Loading.{Dlls}
use wintun_bindings.Loading.Guard.{Loads}
use wintun_bindings.System.{World}
use wintun_bindings.Util.DllPath.{Arch, get_wintun_bin_pattern_path}
use wintun_bindings.Util.Utf16.{encode_utf16}

module _ (d : Dlls) (w : World) (on : d.platform.verify_binary_signature ≡ true) where
  -- What a program finds before it loads.
  abbrev pub Finds : Arch → Outcome Error Wintun × World → Type 0
  Finds arch r =
      ((e : Error) × (r ≡ (err e, w)))
      ⊎ ((dll : Text) × ((get_wintun_bin_pattern_path arch ≡ inr dll) ⊎ (dll ≡ text "wintun.dll"))
          × Loads d (encode_utf16 dll) w r)
