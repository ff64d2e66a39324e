-- ===== src/AsyncSession/Defs.antt =====
-- The types of src/async_session.rs, the wait on the thread pool, and the functions.
pub mod Sending
pub mod Receiving
use wintun_bindings.Base.{
  ℕ, Option, Bool, if◌then◌else◌, ◌==◌, List, ◌||◌, ◌⊎◌, none, ltb, suc, length, ◌%◌, ◌∷◌, inl, ◌^◌,
  [], inr, text, some, ◌++◌, drop, zero,
}
use wintun_bindings.Failure.{into_io, IoError, Error, message, other, shutting_down, boxed}
use wintun_bindings.Session.Calls.{read_wait_event, shutdown, send_packet_of, allocate, try_receive}
use wintun_bindings.Session.Packet.{Session, drop_packet, copy_from_slice, bytes, Packet}
use wintun_bindings.System.{
  Platform, M, Trace, pure, ◌>>◌, ◌>>=◌, map_err, invoke, panics, unblock, attempt, fail, poll_task,
  unwind,
}

pub data WaitingStopReason : Type 0 where
  stop_shutdown stop_ready : WaitingStopReason

-- A task is behind an `Arc` that clones of the session share.
pub data ReadState : Type 0 where
  waiting : Option ℕ → ReadState
  idle closed : ReadState

-- A task that is polled is not done, or is done with what `WaitForMultipleObjects` returned.
pub data TaskPoll : Type 0 where
  task_pending : TaskPoll
  task_done : ℕ → TaskPoll

-- The crate `blocking`: the task that `unblock` starts, whether its mutex can be locked, what a poll
-- of it gives, and what the wait of the task returns to an `await`.
pub record Executor : Type 0 where
  pub unblock_task : Trace → ℕ
  pub can_lock : Trace → ℕ → Bool
  pub poll : Trace → ℕ → TaskPoll
  pub awaited : Trace → ℕ → ℕ

pub data Poll (A : Type 0) : Type 0 where
  ready : A → Poll A
  pending : Poll A

-- What `WaitForMultipleObjects` returned, as `wait_for_read` reads it.
unfoldable pub wait_for_read : {E : Type 0} → ℕ → M E WaitingStopReason
wait_for_read result =
    if result == 0 || result == 0x80
    then pure stop_shutdown
    else if result == 1
    then pure stop_ready
    else panics

module _ (p : Platform) (x : Executor) (s : Session) where
  -- The packet's bytes go to the front of the buffer, if they fit, and the packet is dropped.
  unfoldable pub copy_out : {E : Type 0} → Packet → List ℕ → M E (IoError ⊎ (ℕ × List ℕ))
  unfolding drop_packet bytes
  copy_out packet buf =
      if ltb (length buf) packet.size
      then (do drop_packet p packet; pure (inl (message other (text "Buffer too small"))))
      else (do
        content ← bytes p packet
        drop_packet p packet
        pure (inr (packet.size, content ++ drop packet.size buf)))

  -- The two events, and a task that waits on them.
  unfoldable pub spawn_wait : M Error ℕ
  unfolding read_wait_event
  spawn_wait = do
    event ← read_wait_event p s
    invoke (unblock (s.shutdown_event ∷ event ∷ [])) x.unblock_task

  -- The wait of `recv`: the task is awaited.
  unfoldable pub await_read : M IoError WaitingStopReason
  unfolding spawn_wait wait_for_read
  await_read = do
    task ← map_err into_io spawn_wait
    result ← invoke (poll_task task) (λ t. x.awaited t task)
    wait_for_read result

  -- `recv`, where fuel counts the rounds of the loop and `none` is a loop that goes on.
  unfoldable pub recv : List ℕ → ℕ → M IoError (Option (ℕ × List ℕ))
  unfolding copy_out await_read
  recv buf zero = pure none
  recv buf (suc fuel) = do
    r ← attempt (try_receive p s)
    elim r [
      | inr (some packet) ↦ do
        copied ← copy_out packet buf
        elim copied [ inl e ↦ fail e | inr done ↦ pure (some done) ]
      | inr none ↦ do
        reason ← await_read
        elim reason [ stop_shutdown ↦ fail (into_io shutting_down) | stop_ready ↦ recv buf fuel ]
      | inl e ↦ fail (boxed other e)
    ]

  -- `internal_send` and `send`. The length is cast to `u16`. Where the copy panics the
  -- packet is dropped as the stack unwinds.
  unfoldable pub internal_send : List ℕ → M IoError ℕ
  unfolding copy_from_slice drop_packet send_packet_of allocate
  internal_send buf = do
    packet ← map_err into_io (allocate p s (length buf % 2 ^ 16))
    unwind (drop_packet p packet) (copy_from_slice p packet buf)
    send_packet_of p s packet
    pure (length buf)

  unfoldable pub poll_write : List ℕ → M IoError (Poll ℕ)
  unfolding internal_send
  poll_write buf = do n ← internal_send buf; pure (ready n)

  unfoldable pub poll_flush : M IoError (Poll (Unit {0}))
  poll_flush = pure (ready tt)

  unfoldable pub poll_close : M IoError (Poll (Unit {0}))
  unfolding shutdown into_io
  poll_close = do map_err into_io (shutdown p s); pure (ready tt)
