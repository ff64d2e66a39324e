-- ===== src/Version.antt =====
-- src/lib.rs: the version of the driver that runs.
use wintun_bindings.Base.{
  ℕ, ◌+◌, ◌*◌, ◌/◌, ◌%◌, ◌^◌, ◌<◌, ◌≡◌, ◌≢◌, ok, ◌==◌, if◌then◌else◌, arith, ◌-◌,
}
use wintun_bindings.Failure.{Error}
use wintun_bindings.System.{M, ◌>>=◌, pure, invoke, Platform, World, get_running_driver_version}
use wintun_bindings.Util.LastError.{fail_with_last_error}

pub record Version : Type 0 where
  pub major : ℕ
  pub minor : ℕ

-- `to_be_bytes` of a `u32`: its four bytes, the highest first.
abbrev pub byte_of : ℕ → ℕ → ℕ
byte_of v i = v / 256 ^ (3 - i) % 256

unfoldable pub version_of : ℕ → Version
version_of v = record {
  major = byte_of v 0 * 256 + byte_of v 1;
  minor = byte_of v 2 * 256 + byte_of v 3;
}

module _ (p : Platform) where
  -- `get_running_driver_version`
  unfoldable pub running_version : M Error Version
  unfolding version_of fail_with_last_error
  running_version = do
    version ← invoke get_running_driver_version p.get_running_driver_version
    if version == 0 then fail_with_last_error p else pure (version_of version)

  -- A version that is read back is the 32-bit number of the driver: the major version above, the minor
  -- one in the lower 16 bits, neither above 16 bits. It is never 0.0.
  running_version-number :
      (w : World) (v : Version)
      → p.get_running_driver_version w.trace < 2 ^ 32
      → (running_version w).0 ≡ ok v
      → (v.major * 2 ^ 16 + v.minor ≡ p.get_running_driver_version w.trace)
        × (v.major < 2 ^ 16)
        × (v.minor < 2 ^ 16)
        × (v.major + v.minor ≢ 0)
  unfolding running_version
  running_version-number w v h e = ground arith
