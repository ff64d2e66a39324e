-- ===== src/AsyncSession/PollRead.antt =====
-- src/async_session.rs: `poll_read`, a turn of its loop at a time.
pub mod Wakeups
pub mod Endings
pub mod Arrivals
use wintun_bindings.AsyncSession.Defs.{
  ReadState, Executor, Poll, copy_out, waiting, wait_for_read, pending, ready, spawn_wait, TaskPoll,
  idle, task_done, stop_shutdown, closed, task_pending, stop_ready,
}
use wintun_bindings.Base.{
  ℕ, Option, ◌⊎◌, List, none, suc, some, zero, inr, if◌then◌else◌, inl, text,
}
use wintun_bindings.Failure.{IoError, message, into_io, other, boxed}
use wintun_bindings.Session.Calls.{try_receive}
use wintun_bindings.Session.Packet.{Session}
use wintun_bindings.System.{Platform, M, pure, ◌>>=◌, observe, attempt, invoke, poll_task}

-- What a turn leaves: a result, or none if the loop goes on, and the new `read_state`.
pub record Turn : Type 0 where
  pub result : Option (Poll (IoError ⊎ (ℕ × List ℕ)))
  pub read_state : ReadState

abbrev pub finish : {E : Type 0} → IoError ⊎ (ℕ × List ℕ) → ReadState → M E Turn
finish r state = pure (record { result = some (ready r); read_state = state })

abbrev pub go_on : {E : Type 0} → ReadState → M E Turn
go_on state = pure (record { result = none; read_state = state })

abbrev pub wait_on : {E : Type 0} → ReadState → M E Turn
wait_on state = pure (record { result = some pending; read_state = state })

module _ (p : Platform) (x : Executor) (s : Session) where
  unfoldable pub idle_turn : List ℕ → M ⊥ Turn
  unfolding copy_out spawn_wait
  idle_turn buf = do
    r ← attempt (try_receive p s)
    elim r [
      | inr (some packet) ↦ do copied ← copy_out p x s packet buf; finish copied idle
      | inr none ↦ do
        spawned ← attempt (spawn_wait p x s)
        elim spawned [
          | inl e ↦ finish (inl (into_io e)) idle
          | inr task ↦ go_on (waiting (some task))
        ]
      | inl e ↦ finish (inl (boxed other e)) idle
    ]

  unfoldable pub polled_turn : ℕ → TaskPoll → M ⊥ Turn
  unfolding wait_for_read
  polled_turn task task_pending = wait_on (waiting (some task))
  polled_turn task (task_done result) = do
    reason ← wait_for_read result
    elim reason [ stop_shutdown ↦ go_on closed | stop_ready ↦ go_on idle ]

  unfoldable pub waiting_turn : ℕ → M ⊥ Turn
  unfolding polled_turn
  waiting_turn task = do
    locked ← observe (λ t. x.can_lock t task)
    if locked
        then (do polled ← invoke (poll_task task) (λ t. x.poll t task); polled_turn task polled)
        else finish
            (inl
              (message other (text "Lock task failed: poisoned lock: another task failed inside")))
            (waiting (some task))

  unfoldable pub turn : ReadState → List ℕ → M ⊥ Turn
  unfolding idle_turn waiting_turn
  turn idle buf = idle_turn buf
  turn (waiting none) buf = wait_on (waiting none)
  turn (waiting (some task)) buf = waiting_turn task
  turn closed buf = finish (inr (0, buf)) closed

  -- The loop, on fuel. A result `none` is a loop that goes on.
  unfoldable pub poll_read : ReadState → List ℕ → ℕ → M ⊥ Turn
  poll_read state buf zero = go_on state
  poll_read state buf (suc fuel) = do
    t ← turn state buf
    elim t.result [ some r ↦ pure t | none ↦ poll_read t.read_state buf fuel ]
