-- ===== src/Ffi.antt =====
-- src/ffi.rs: the conversions between a network interface's alias, LUID, index and GUID, which are
-- calls of the Windows library iphlpapi with a code for a result.
use wintun_bindings.Base.{ℕ, List, Text, some, inr, Option, if◌then◌else◌, inl, ◌==◌, text, none}
use wintun_bindings.Failure.{IoError, Error, string, from_raw_os_error}
use wintun_bindings.System.{M, Trace, ◌>>=◌, pure, observe, fail}
use wintun_bindings.Util.Guid.{Guid}
use wintun_bindings.Util.Utf16.{to_wide, decode_utf16, win_pwstr_to_string}

-- The answers of the Windows library, each with its code, 0 for success. `from_u128` and
-- `string_from_guid` are `GUID::from_u128` and the buffer that `StringFromGUID2` fills.
pub record IpHelper : Type 0 where
  pub create_adapter : Trace → ℕ
  pub open_adapter : Trace → ℕ
  pub luid_to_alias_code : Trace → ℕ → ℕ
  pub luid_to_alias_buffer : Trace → ℕ → List ℕ
  pub alias_to_luid_code : Trace → List ℕ → ℕ
  pub alias_to_luid_value : Trace → List ℕ → ℕ
  pub luid_to_index_code : Trace → ℕ → ℕ
  pub luid_to_index_value : Trace → ℕ → ℕ
  pub luid_to_guid_code : Trace → ℕ → ℕ
  pub luid_to_guid_value : Trace → ℕ → Guid
  pub uuid_create : Trace → Guid
  pub string_from_guid : ℕ → List ℕ
  pub windows_version : Option (ℕ × ℕ × ℕ)
  pub debug : List ℕ → Text

unfoldable pub checked : {A : Type 0} → (Trace → ℕ) → (Trace → A) → M IoError A
checked code value = do
  r ← observe code
  if r == 0 then observe value else fail (from_raw_os_error r)

module _ (ip : IpHelper) where
  unfoldable pub luid_to_alias : ℕ → M IoError Text
  unfolding checked decode_utf16
  luid_to_alias luid =
      checked (λ t. ip.luid_to_alias_code t luid)
        (λ t. decode_utf16 (ip.luid_to_alias_buffer t luid))

  unfoldable pub alias_to_luid : Text → M IoError ℕ
  unfolding checked to_wide
  alias_to_luid alias =
      checked (λ t. ip.alias_to_luid_code t (to_wide alias))
        (λ t. ip.alias_to_luid_value t (to_wide alias))

  unfoldable pub luid_to_index : ℕ → M IoError ℕ
  unfolding checked
  luid_to_index luid =
      checked (λ t. ip.luid_to_index_code t luid) (λ t. ip.luid_to_index_value t luid)

  unfoldable pub luid_to_guid : ℕ → M IoError Guid
  unfolding checked
  luid_to_guid luid = checked (λ t. ip.luid_to_guid_code t luid) (λ t. ip.luid_to_guid_value t luid)

  -- `guid_to_win_style_string` of src/util.rs, of a GUID as a number.
  unfoldable pub guid_to_win_style_string : ℕ → M Error Text
  guid_to_win_style_string guid =
      elim (win_pwstr_to_string ip.debug (some (ip.string_from_guid guid))) [
        | inr s ↦ pure s
        | inl e ↦ fail e
      ]

  -- `get_windows_version` of src/util.rs, which fails where ntdll lacks the function.
  unfoldable pub get_windows_version : M Error (ℕ × ℕ × ℕ)
  get_windows_version = elim ip.windows_version [
    | some version ↦ pure version
    | none ↦ fail (string (text "Failed to load function RtlGetNtVersionNumbers"))
  ]
