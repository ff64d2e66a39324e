-- ===== src/Signature/Trust/Closing.antt =====
-- What `verify_signature` of src/verify_binary_signature.rs judges, and the state that it makes.
use wintun_bindings.Base.{ℕ, List, ◌∷◌, ◌≡◌, ◌≢◌, ◌↔◌, ok, panic, arith}
use wintun_bindings.Signature.Trust.{
  TrustApi, verify_signature, terminated, action_verify, action_close,
}
use wintun_bindings.System.{World, Platform, win_verify_trust}

module _ (p : Platform) (trust : TrustApi) (file : List ℕ) (w : World) where
  -- `verify_signature` accepts a file exactly if the status of its verification is 0. Whatever the
  -- status, it verifies once and then closes the state of the verification, with the same path and
  -- nothing in between, and does not panic.
  pub verify_signature-closes :
      let r = verify_signature p trust file w in
      ((r.0 ≡ ok tt) ↔ (trust.verify_status w.trace (terminated file) ≡ 0))
      × (r.1 ≡ record w {
        trace =
            win_verify_trust action_close (terminated file)
            ∷ win_verify_trust action_verify (terminated file)
            ∷ w.trace;
      })
      × (r.0 ≢ panic)
  unfolding verify_signature
  verify_signature-closes = ground arith
