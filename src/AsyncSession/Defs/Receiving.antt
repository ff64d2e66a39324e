-- ===== src/AsyncSession/Defs/Receiving.antt =====
-- The asynchronous `recv` of src/async_session.rs: the packets that it takes, and its loop.
use wintun_bindings.AsyncSession.Defs.{Executor, recv, spawn_wait, copy_out, await_read, stop_ready}
use wintun_bindings.Base.{
  ℕ, zero, suc, ◌+◌, ◌≤◌, List, ◌≡◌, ◌≢◌, length, ok, none, panic, arith, refl, Outcome-cases, err,
  Option-cases, ◌∷◌, some, inl, inr,
}
use wintun_bindings.Failure.{IoError, Error}
use wintun_bindings.Session.Calls.{try_receive}
use wintun_bindings.Session.Loops.Endings.{length-try_receive}
use wintun_bindings.Session.Packet.{Session, Packet}
use wintun_bindings.Session.Ring.{held, erase-cons_self}
use wintun_bindings.System.{Platform, Trace, World, get_read_wait_event}

module _ (p : Platform) (x : Executor) (s : Session) (buf : List ℕ) where
  held-await_read : (h : ℕ) (w : World) → held p h (await_read p x s w).1.trace ≡ held p h w.trace
  unfolding await_read held
  held-await_read h w = ground arith

  held-try_receive_one :
      (h : ℕ) (w : World) (packet : Packet)
      → (try_receive p s w).0 ≡ ok (some packet)
      → held p h (copy_out p x s {E = IoError} packet buf (try_receive p s w).1).1.trace
        ≡ held p h w.trace
  unfolding try_receive copy_out held
  held-try_receive_one h w packet e =
      ground (arith, erase-cons_self (p.receive_packet w.trace s.inner).address (held p h w.trace))

  held-nothing_received :
      (h : ℕ) (w : World)
      → (try_receive p s w).0 ≡ ok none
      → held p h (try_receive p s w).1.trace ≡ held p h w.trace
  unfolding try_receive held
  held-nothing_received h w e = ground arith

  held-failed_receive :
      (h : ℕ) (w : World) (e : Error)
      → (try_receive p s w).0 ≡ err e
      → held p h (try_receive p s w).1.trace ≡ held p h w.trace
  unfolding try_receive held
  held-failed_receive h w e eq = ground arith

  -- However long the asynchronous `recv` waits and however it ends, short of a panic, no packet stays
  -- held that was not held before: a packet that does not fit the buffer is released too.
  recv_releases :
      (h fuel : ℕ) (w : World)
      → (recv p x s buf fuel w).0 ≢ panic
      → held p h (recv p x s buf fuel w).1.trace ≡ held p h w.trace
  unfolding recv
  recv_releases h zero w ne = refl
  recv_releases h (suc fuel) w ne = elim (Outcome-cases (try_receive p s w).0) [
    | inl (some packet, e) ↦ ground (arith, held-try_receive_one h w packet)
    | inl (none, e) ↦ ground (
      arith,
      held-nothing_received h w,
      held-await_read h (try_receive p s w).1,
      recv_releases h fuel (await_read p x s (try_receive p s w).1).1,
    )
    | inr (inl (x', e)) ↦ ground (arith, held-failed_receive h w x')
    | inr (inr e) ↦ absurd (ground arith)
  ]

  length-await_read : (w : World) → length w.trace + 1 ≤ length (await_read p x s w).1.trace
  unfolding await_read
  length-await_read w = ground arith

  -- From `k` calls on, every awaited task ends with the shutdown event.
  abbrev pub IsShutAfter : ℕ → Type 0
  IsShutAfter k = (t : Trace) (task : ℕ) → k ≤ length t → x.awaited t task ≡ 0

  spawn_wait-ok :
      (w : World)
      → (task : ℕ) × (w' : World) × (spawn_wait p x s w ≡ (ok task, w'))
        × (length w.trace ≤ length w'.trace)
  unfolding spawn_wait
  spawn_wait-ok w = elim (Option-cases (w.cell s.read_event)) [
    | inl e ↦ (
      x.unblock_task (get_read_wait_event s.inner ∷ w.trace),
      (spawn_wait p x s w).1,
      ground arith,
      ground arith,
    )
    | inr (event, e) ↦ (x.unblock_task w.trace, (spawn_wait p x s w).1, ground arith, ground arith)
  ]

  await_read_shut :
      (k : ℕ) (w : World)
      → IsShutAfter k
      → k ≤ length w.trace
      → (await_read p x s w).0 ≢ ok stop_ready
  unfolding await_read
  await_read_shut k w shut h =
      let (task, w', run, le) = spawn_wait-ok w in
      ground (arith, run, shut w'.trace task (omega arith))

  -- A round of the loop that is not the last.
  recv_round :
      (fuel : ℕ) (w : World)
      → (recv p x s buf (suc fuel) w).0 ≡ ok none
      → let w₁ = (try_receive p s w).1 in
        ((await_read p x s w₁).0 ≡ ok stop_ready)
        × ((recv p x s buf fuel (await_read p x s w₁).1).0 ≡ ok none)
  unfolding recv copy_out
  recv_round fuel w e = ground arith

  -- Once every awaited task ends with the shutdown event, the asynchronous `recv` ends: as many rounds
  -- as there are calls left before that, and one more, are enough fuel.
  pub recv_shuts :
      (k fuel : ℕ) (w : World)
      → IsShutAfter k
      → k ≤ fuel + length w.trace
      → (recv p x s buf (suc fuel) w).0 ≢ ok none
  recv_shuts k zero w shut h e =
      await_read_shut k (try_receive p s w).1 shut (omega (arith, h, length-try_receive p s w))
        (recv_round zero w e).0
  recv_shuts k (suc fuel) w shut h e =
      let w₁ = (try_receive p s w).1 in
      recv_shuts k fuel (await_read p x s w₁).1 shut
        (omega (arith, h, length-try_receive p s w, length-await_read w₁))
        (recv_round (suc fuel) w e).1
