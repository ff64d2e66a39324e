-- ===== src/Util/LastError.antt =====
-- src/util.rs: the Windows error code of the last call, as an error of the crate.
use wintun_bindings.Base.{ℕ, Text, text, ◌==◌, if◌then◌else◌}
use wintun_bindings.Failure.{IoError, from_raw_os_error, Error, io, string}
use wintun_bindings.System.{◌>>=◌, ◌>>◌, M, pure, fail, observe, map_err, Platform}

unfoldable pub get_os_error_from_id : ℕ → M IoError (Unit {0})
get_os_error_from_id id = if id == 0 then pure tt else fail (from_raw_os_error id)

module _ (p : Platform) where
  unfoldable pub get_last_error : M IoError Text
  unfolding get_os_error_from_id
  get_last_error = do id ← observe p.last_error; get_os_error_from_id id; pure (text "No error")

  -- `Err(get_last_error()?.into())`, at the error type of the crate.
  unfoldable pub fail_with_last_error : {A : Type 0} → M Error A
  unfolding get_last_error
  fail_with_last_error = do info ← map_err io get_last_error; fail (string info)

  -- `Err(std::io::Error::last_os_error())`
  unfoldable pub fail_with_os_error : {A : Type 0} → M IoError A
  fail_with_os_error = do e ← observe p.last_error; fail (from_raw_os_error e)
