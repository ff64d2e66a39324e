-- ===== src/Programs/Closing.antt =====
-- examples/basic.rs: the whole of `main` with a loaded library, its end and what it drops included.
pub mod Dropped
use wintun_bindings.Adapter.Registry.{Registry, drop_adapter}
use wintun_bindings.Adapter.Settings.{Network}
use wintun_bindings.Base.{true, ℕ, Bool, inl, false, inr}
use wintun_bindings.Failure.{Error, string}
use wintun_bindings.Programs.Basic.{begin}
use wintun_bindings.Programs.Tunnel.{Joined}
use wintun_bindings.Session.Calls.{shutdown, drop_session}
use wintun_bindings.Session.Packet.{Session}
use wintun_bindings.System.{
  Platform, Trace, M, ◌>>◌, ◌>>=◌, attempt, observe, from_result, pure, fail,
}

module _ (p : Platform) where
  -- `main` after its line was read: the session is shut down, and the thread `reader` is joined. What the
  -- thread returns is read off the calls so far; an error that it returns is dropped.
  unfoldable pub stop : Session → (Trace → Joined (Unit {0})) → M Error (Unit {0})
  unfolding shutdown
  stop s reader = do
    shutdown p s
    joined ← observe reader
    elim joined [ inl panicked ↦ fail (string panicked) | inr returned ↦ pure tt ]

-- The threads in `main`'s time: `ended` tells whether the thread `reader` has ended, `reader` what it
-- returns.
module _ (n : Network) (registry : Registry) (key_rounds : ℕ) (ended : Trace → Bool)
    (reader : Trace → Joined (Unit {0})) where
  -- The variables `session` and `adapter` at the end of `main`. The session and the adapter, which it
  -- shares, go with them unless the thread `reader` still owns the session.
  unfoldable pub let_go : Session → M Error (Unit {0})
  unfolding drop_session drop_adapter
  let_go s = do
    alone ← observe ended
    elim alone [
      | false ↦ pure tt
      | true ↦ do
        drop_session n.platform s
        _ ← attempt {F = Error} (drop_adapter n registry key_rounds s.adapter)
        pure tt
    ]

  -- `main`, from the first question for the version on.
  unfoldable pub run_basic : M Error (Unit {0})
  unfolding begin stop let_go
  run_basic = do
    s ← begin n registry key_rounds
    r ← attempt (stop n.platform s reader)
    let_go s
    from_result r
