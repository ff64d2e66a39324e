-- ===== src/Util/FormatMessage.antt =====
-- src/util.rs: the text of a Windows error code.
use wintun_bindings.Base.{ℕ, ◌%◌, ◌^◌, Option, ◌*◌, List, Text, if◌then◌else◌, ◌==◌, inr, inl}
use wintun_bindings.Failure.{IoError, into_io}
use wintun_bindings.System.{Trace, Platform, M, ◌>>=◌, observe, pure, fail}
use wintun_bindings.Util.LastError.{get_last_error}
use wintun_bindings.Util.Utf16.{win_pwstr_to_string}
use Prim.Native.Nat.{bit_or}

-- `MAKELANGID`, with the two masks of 16 bits and the shift of a `u32`.
unfoldable pub makelangid : ℕ → ℕ → ℕ
makelangid p s = bit_or (s % 2 ^ 16 * 2 ^ 10 % 2 ^ 32) (p % 2 ^ 16)

-- `FormatMessageW` for a code and a language: how many characters it writes, and the buffer.
pub record Messages : Type 0 where
  pub format_count : Trace → ℕ → ℕ → ℕ
  pub format_buffer : Trace → ℕ → ℕ → Option (List ℕ)
  pub debug_text : List ℕ → Text

-- LANG_NEUTRAL is 0 and SUBLANG_DEFAULT is 1.
unfoldable pub format_message : Platform → Messages → ℕ → M IoError Text
unfolding makelangid get_last_error
format_message p m code = do
  count ← observe (λ t. m.format_count t code (makelangid 0 1))
  if count == 0 then get_last_error p else (do
    buffer ← observe (λ t. m.format_buffer t code (makelangid 0 1))
    elim (win_pwstr_to_string m.debug_text buffer) [ inr s ↦ pure s | inl e ↦ fail (into_io e) ])
