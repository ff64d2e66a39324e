-- ===== src/Session/Loops.antt =====
-- src/session.rs: the loops that block until a packet is there. Fuel counts the rounds of the outer
-- loop, a result `none` is a loop that still waits when its fuel is used up.
pub mod Endings
use wintun_bindings.Base.{ℕ, zero, suc, true, false, Option, none, some, List, inl, inr}
use wintun_bindings.Failure.{IoError, Error, into_io, is_would_block}
use wintun_bindings.Session.Calls.{try_receive, try_recv, wait_read}
use wintun_bindings.Session.Packet.{Session, Packet}
use wintun_bindings.System.{◌>>=◌, ◌>>◌, M, pure, fail, attempt, map_err, Platform}

module _ (p : Platform) (s : Session) where
  -- `for _ in 0..n` around `try_receive`.
  unfoldable pub receive_tries : ℕ → M Error (Option Packet)
  receive_tries zero = pure none
  receive_tries (suc n) = do
    r ← try_receive p s
    elim r [ some packet ↦ pure (some packet) | none ↦ receive_tries n ]

  unfoldable pub receive_blocking : ℕ → M Error (Option Packet)
  unfolding receive_tries
  receive_blocking zero = pure none
  receive_blocking (suc fuel) = do
    r ← receive_tries 5
    elim r [ some packet ↦ pure (some packet) | none ↦ do wait_read p s; receive_blocking fuel ]

  -- `for _ in 0..n` around `try_recv`.
  unfoldable pub recv_tries : List ℕ → ℕ → M IoError (Option (ℕ × List ℕ))
  recv_tries buf zero = pure none
  recv_tries buf (suc n) = do
    r ← attempt (try_recv p s buf)
    elim r [
      | inr done ↦ pure (some done)
      | inl e ↦ elim (is_would_block e) [ true ↦ recv_tries buf n | false ↦ fail e ]
    ]

  unfoldable pub recv : List ℕ → ℕ → M IoError (Option (ℕ × List ℕ))
  unfolding recv_tries
  recv buf zero = pure none
  recv buf (suc fuel) = do
    r ← recv_tries buf 5
    elim r [
      | some done ↦ pure (some done)
      | none ↦ do map_err into_io (wait_read p s); recv buf fuel
    ]
