-- ===== src/AsyncSession/PollRead/Wakeups.antt =====
-- The pending results of `poll_read` of src/async_session.rs, and the tasks that they wait on.
use wintun_bindings.AsyncSession.Defs.{ReadState, Executor, waiting, pending, idle, closed}
use wintun_bindings.AsyncSession.PollRead.{Turn, poll_read, idle_turn, turn, waiting_turn}
use wintun_bindings.Base.{
  Option, some, List, suc, inl, inr, ℕ, none, ◌≡◌, Bool, false, ◌∷◌, [], ◌≢◌, true, ok, arith, zero,
  Outcome-cases,
}
use wintun_bindings.Session.Packet.{Session}
use wintun_bindings.System.{poll_task, Trace, Platform, Call, World}

-- A state between calls: a waiting state has its task.
abbrev pub is_resting : ReadState → Bool
is_resting (waiting none) = false
is_resting _ = true

-- The call that registers the caller with the task of the state.
abbrev pub registration : ReadState → Option Call
registration (waiting (some task)) = some (poll_task task)
registration _ = none

abbrev pub newest : Trace → Option Call
newest [] = none
newest (c ∷ t) = some c

-- A pending result comes with a state that waits on a task, and the newest call is a poll of it.
abbrev pub IsRegistered : Turn → Trace → Type 0
IsRegistered t trace =
    t.result ≡ some pending
    → (newest trace ≡ registration t.read_state) × (registration t.read_state ≢ none)

module _ (p : Platform) (x : Executor) (s : Session) where
  idle_turn-rests :
      (buf : List ℕ) (w : World) (t : Turn)
      → (idle_turn p x s buf w).0 ≡ ok t
      → (is_resting t.read_state ≡ true) × IsRegistered t (idle_turn p x s buf w).1.trace
  unfolding idle_turn
  idle_turn-rests buf w t e = ground arith

  waiting_turn-rests :
      (task : ℕ) (w : World) (t : Turn)
      → (waiting_turn p x s task w).0 ≡ ok t
      → (is_resting t.read_state ≡ true) × IsRegistered t (waiting_turn p x s task w).1.trace
  unfolding waiting_turn
  waiting_turn-rests task w t e = ground arith

  turn-rests :
      (state : ReadState) (buf : List ℕ) (w : World) (t : Turn)
      → is_resting state ≡ true
      → (turn p x s state buf w).0 ≡ ok t
      → (is_resting t.read_state ≡ true) × IsRegistered t (turn p x s state buf w).1.trace
  unfolding turn
  turn-rests idle buf w t h e = idle_turn-rests buf w t e
  turn-rests (waiting none) buf w t h e = cc
  turn-rests (waiting (some task)) buf w t h e = waiting_turn-rests task w t e
  turn-rests closed buf w t h e = ground arith

  -- Whenever `poll_read` starts from a state that has its task, it leaves one. And where it
  -- answers that it is pending, its newest call polled the task that it waits on, with the caller as
  -- the one to wake.
  pub poll_read-registers :
      (fuel : ℕ) (state : ReadState) (buf : List ℕ) (w : World) (t : Turn)
      → is_resting state ≡ true
      → (poll_read p x s state buf fuel w).0 ≡ ok t
      → (is_resting t.read_state ≡ true) × IsRegistered t (poll_read p x s state buf fuel w).1.trace
  unfolding poll_read
  poll_read-registers zero state buf w t h e = ground arith
  poll_read-registers (suc fuel) state buf w t h e =
      elim (Outcome-cases (turn p x s state buf w).0) [
        | inl (t', now) ↦ ground (
          arith,
          now,
          turn-rests state buf w t' h,
          poll_read-registers fuel t'.read_state buf (turn p x s state buf w).1 t,
        )
        | inr stop ↦ absurd (ground arith)
      ]
