-- ===== src/Signature/Trust.antt =====
-- src/verify_binary_signature.rs: `verify_signature`.
pub mod Closing
use wintun_bindings.Base.{ℕ, List, [], ◌∷◌, ◌++◌, Text, text, ◌==◌, ◌||◌, if◌then◌else◌, inr, inl}
use wintun_bindings.Failure.{IoError, message, other, from_raw_os_error}
use wintun_bindings.System.{
  M, ◌>>=◌, pure, fail, invoke, observe, attempt, tell, Trace, Platform, win_verify_trust, ◌>>◌,
}

-- `WinVerifyTrust` with the state action that verifies a file, and its status, the bits of an `i32`.
pub record TrustApi : Type 0 where
  pub verify_status : Trace → List ℕ → ℕ

-- WTD_STATEACTION_VERIFY and WTD_STATEACTION_CLOSE.
abbrev pub action_verify : ℕ
action_verify = 1

abbrev pub action_close : ℕ
action_close = 2

abbrev pub trust_e_nosignature : ℕ
trust_e_nosignature = 0x800b0100

abbrev pub trust_e_subject_form_unknown : ℕ
trust_e_subject_form_unknown = 0x800b0003

abbrev pub trust_e_provider_unknown : ℕ
trust_e_provider_unknown = 0x800b0001

abbrev pub trust_e_explicit_distrust : ℕ
trust_e_explicit_distrust = 0x800b0111

abbrev pub trust_e_subject_not_trusted : ℕ
trust_e_subject_not_trusted = 0x800b0004

abbrev pub crypt_e_security_settings : ℕ
crypt_e_security_settings = 0x80092026

-- What a file without a signature is reported as, by the last error.
abbrev pub unsigned_text : ℕ → Text
unsigned_text e =
    if (e == trust_e_nosignature)
      || (e == trust_e_subject_form_unknown)
      || (e == trust_e_provider_unknown)
    then text "The file is not signed."
    else text "An unknown error occurred trying to verify the signature of the file."

-- `encode_wide().chain(once(0))`
abbrev pub terminated : List ℕ → List ℕ
terminated path = path ++ 0 ∷ []

module _ (p : Platform) (trust : TrustApi) where
  -- The `match` on the status.
  unfoldable pub judge : ℕ → M IoError (Unit {0})
  judge status =
      if status == 0
      then pure tt
      else if status == trust_e_nosignature
      then (do e ← observe p.last_error; fail (message other (unsigned_text e)))
      else if status == trust_e_explicit_distrust
      then fail (message other (text "The signature is present, but specifically disallowed."))
      else if status == trust_e_subject_not_trusted
      then fail (message other (text "The signature is present, but not trusted."))
      else if status == crypt_e_security_settings
      then fail (
          message other (
            text
              "The hash representing the subject or the publisher wasn't explicitly trusted by the admin and admin policy has disabled user trust. No signature, publisher or timestamp errors."))
      else fail (from_raw_os_error status)

  -- The state that the first call has made is released by the second one, whatever the judgement.
  unfoldable pub verify_signature : List ℕ → M IoError (Unit {0})
  unfolding judge
  verify_signature file = do
    let path = terminated file
    status ← invoke (win_verify_trust action_verify path) (λ t. trust.verify_status t path)
    res ← attempt (judge status)
    tell (win_verify_trust action_close path)
    elim res [ inr done ↦ pure tt | inl e ↦ fail e ]
