-- ===== src/Signature/Signer.antt =====
-- src/verify_binary_signature.rs: `get_signer_name`.
pub mod Handles
use wintun_bindings.Base.{
  ℕ, zero, suc, ◌+◌, ◌-◌, List, [], ◌∷◌, Option, none, some, take, Text, text, ◌==◌, ltb,
  if◌then◌else◌,
}
use wintun_bindings.Failure.{IoError, message, invalid_data}
use wintun_bindings.Signature.Trust.{terminated}
use wintun_bindings.System.{
  M, ◌>>=◌, ◌>>◌, pure, fail, invoke, observe, tell, Trace, Platform, crypt_query_object,
  find_certificate, free_certificate,
}
use wintun_bindings.Util.LastError.{fail_with_os_error}
use wintun_bindings.Util.Utf16.{from_utf16}

-- What `CryptQueryObject` writes.
pub record Query : Type 0 where
  pub encoding : ℕ
  pub store : ℕ
  pub msg : ℕ

-- The issuer and the serial number of a `CMSG_SIGNER_INFO`.
pub record SignerInfo : Type 0 where
  pub issuer : ℕ
  pub serial_number : ℕ

-- crypt32. A call that fails gives nothing. A name is given by its length with the null and, for a
-- buffer of that length, whether it was written and the unit at each index.
pub record CryptApi : Type 0 where
  pub query_object : Trace → List ℕ → Option Query
  pub signer_info_len : Trace → ℕ → Option ℕ
  pub signer_info : Trace → ℕ → Option SignerInfo
  pub size_of_signer_info : ℕ
  pub certificate : Trace → ℕ → ℕ → ℕ → ℕ → ℕ
  pub name_len : Trace → ℕ → ℕ
  pub name_written : Trace → ℕ → ℕ
  pub name_unit : Trace → ℕ → ℕ → ℕ

-- A buffer of `n` units, by the unit at each index.
abbrev pub buffer : (ℕ → ℕ) → ℕ → ℕ → List ℕ
buffer f i zero = []
buffer f i (suc n) = f i ∷ buffer f (i + 1) n

module _ (p : Platform) (crypt : CryptApi) where
  -- A call of the API that gives nothing where it fails.
  unfoldable pub or_os_error : {A : Type 0} → Option A → M IoError A
  unfolding fail_with_os_error
  or_os_error none = fail_with_os_error p
  or_os_error (some a) = pure a

  -- The two calls of `CryptMsgGetParam`.
  unfoldable pub get_signer_info : ℕ → M IoError SignerInfo
  unfolding or_os_error
  get_signer_info msg = do
    len ← observe (λ t. crypt.signer_info_len t msg)
    n ← or_os_error len
    if ltb n crypt.size_of_signer_info
        then fail (message invalid_data (text "Invalid signer info size."))
        else do info ← observe (λ t. crypt.signer_info t msg); or_os_error info

  -- `String::from_utf16` of all units but the last.
  unfoldable pub decode_name : List ℕ → ℕ → M IoError Text
  decode_name units n = elim (from_utf16 (take (n - 1) units)) [
    | some name ↦ pure name
    | none ↦ fail (message invalid_data (text "Invalid UTF-16 string."))
  ]

  -- The two calls of `CertGetNameStringW`, and the text. The certificate is freed at the end.
  unfoldable pub get_certificate_name : ℕ → M IoError Text
  unfolding decode_name fail_with_os_error
  get_certificate_name context = do
    n ← observe (λ t. crypt.name_len t context)
    if n == 0 then fail_with_os_error p else do
      written ← observe (λ t. crypt.name_written t context)
      if written == 0 then fail_with_os_error p else do
        units ← observe (λ t. buffer (crypt.name_unit t context) 0 n)
        name ← decode_name units n
        tell (free_certificate context)
        pure name

  unfoldable pub find_signer : Query → SignerInfo → M IoError ℕ
  find_signer query info =
      invoke (find_certificate query.store query.encoding info.issuer info.serial_number)
        (λ t. crypt.certificate t query.store query.encoding info.issuer info.serial_number)

  unfoldable pub get_signer_name : List ℕ → M IoError Text
  unfolding or_os_error get_signer_info find_signer get_certificate_name
  get_signer_name file = do
    let path = terminated file
    found ← invoke (crypt_query_object path) (λ t. crypt.query_object t path)
    query ← or_os_error found
    info ← get_signer_info query.msg
    context ← find_signer query info
    if context == 0 then fail_with_os_error p else get_certificate_name context
