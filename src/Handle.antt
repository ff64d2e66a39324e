-- ===== src/Handle.antt =====
-- src/handle.rs: events of the Windows kernel. A `SafeEvent` is its handle.
use wintun_bindings.Base.{ℕ, Bool, ◌==◌, if◌then◌else◌}
use wintun_bindings.Failure.{Error}
use wintun_bindings.System.{
  ◌>>=◌, M, pure, invoke, attempt, Platform, create_event, set_event, close_handle,
}
use wintun_bindings.Util.LastError.{fail_with_last_error}

module _ (p : Platform) where
  unfoldable pub new : Bool → Bool → M Error ℕ
  unfolding fail_with_last_error
  new manual_reset initial_state = do
    handle ← invoke (create_event manual_reset initial_state) p.create_event
    if handle == 0 then fail_with_last_error p else pure handle

  unfoldable pub signal : ℕ → M Error (Unit {0})
  unfolding fail_with_last_error
  signal event = do
    done ← invoke (set_event event) (λ t. p.set_event t event)
    if done == 0 then fail_with_last_error p else pure tt

  unfoldable pub close : ℕ → M Error (Unit {0})
  unfolding fail_with_last_error
  close event = if event == 0 then pure tt else do
    done ← invoke (close_handle event) (λ t. p.close_handle t event)
    if done == 0 then fail_with_last_error p else pure tt

  -- `impl Drop for SafeEvent`: a failure is only logged.
  unfoldable pub drop_event : {E : Type 0} → ℕ → M E (Unit {0})
  unfolding close
  drop_event event = do _ ← attempt (close event); pure tt
