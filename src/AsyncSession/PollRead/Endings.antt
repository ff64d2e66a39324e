-- ===== src/AsyncSession/PollRead/Endings.antt =====
-- `poll_read` of src/async_session.rs: the packets that it takes, and its loop.
use wintun_bindings.AsyncSession.Defs.{
  Executor, ReadState, task_pending, closed, task_done, waiting, idle,
}
use wintun_bindings.AsyncSession.PollRead.{poll_read, turn, idle_turn, Turn, waiting_turn}
use wintun_bindings.Base.{
  List, suc, some, inl, inr, ℕ, none, ◌≤◌, length, ◌≡◌, ◌≢◌, ◌⊎◌, panic, Outcome-cases, ◌+◌, arith,
  zero, refl, ok, ◌<◌, ◌*◌, ◌-◌,
}
use wintun_bindings.Session.Calls.{try_receive}
use wintun_bindings.Session.Loops.Endings.{length-try_receive}
use wintun_bindings.Session.Packet.{Session}
use wintun_bindings.Session.Ring.{held, erase-cons_self}
use wintun_bindings.System.{Platform, Trace, World}

module _ (p : Platform) (x : Executor) (s : Session) where
  held-idle_turn :
      (h : ℕ) (buf : List ℕ) (w : World)
      → (idle_turn p x s buf w).0 ≢ panic
      → held p h (idle_turn p x s buf w).1.trace ≡ held p h w.trace
  unfolding idle_turn try_receive held
  held-idle_turn h buf w ne =
      ground (arith, erase-cons_self (p.receive_packet w.trace s.inner).address (held p h w.trace))

  held-turn :
      (h : ℕ) (state : ReadState) (buf : List ℕ) (w : World)
      → (turn p x s state buf w).0 ≢ panic
      → held p h (turn p x s state buf w).1.trace ≡ held p h w.trace
  unfolding turn held
  held-turn h idle buf w ne = held-idle_turn h buf w ne
  held-turn h (waiting none) buf w ne = refl
  held-turn h (waiting (some task)) buf w ne = ground arith
  held-turn h closed buf w ne = refl

  -- However a `poll_read` ends, short of a panic, no packet stays held that was not held before: a
  -- packet that does not fit the buffer is released too.
  pub held-poll_read :
      (h fuel : ℕ) (state : ReadState) (buf : List ℕ) (w : World)
      → (poll_read p x s state buf fuel w).0 ≢ panic
      → held p h (poll_read p x s state buf fuel w).1.trace ≡ held p h w.trace
  unfolding poll_read
  held-poll_read h zero state buf w ne = refl
  held-poll_read h (suc fuel) state buf w ne = elim (Outcome-cases (turn p x s state buf w).0) [
    | inl (t, now) ↦ ground (
      arith,
      now,
      held-turn h state buf w,
      held-poll_read h fuel t.read_state buf (turn p x s state buf w).1,
    )
    | inr stop ↦ ground (arith, stop, held-turn h state buf w)
  ]

  -- From `k` calls on, no wait ends because a packet has come.
  abbrev pub IsStillFrom : ℕ → Type 0
  IsStillFrom k =
      (t : Trace) (task : ℕ)
      → k ≤ length t
      → (x.poll t task ≡ task_pending) ⊎ (x.poll t task ≡ task_done 0)

  abbrev rank : ReadState → ℕ
  rank closed = 1
  rank (waiting task) = 2
  rank idle = 3

  rank-le : (state : ReadState) → rank state ≤ 3
  rank-le closed = omega arith
  rank-le (waiting task) = omega arith
  rank-le idle = omega arith

  abbrev left : ℕ → ReadState → World → ℕ
  left k state w = 2 * (k - length w.trace) + rank state

  idle_turn-left :
      (k : ℕ) (buf : List ℕ) (w : World) (t : Turn)
      → (idle_turn p x s buf w).0 ≡ ok t
      → t.result ≡ none
      → left k t.read_state (idle_turn p x s buf w).1 < left k idle w
  unfolding idle_turn
  idle_turn-left k buf w t e goes = ground (arith, length-try_receive p s w)

  waiting_turn-left :
      (k task : ℕ) (w : World) (t : Turn)
      → IsStillFrom k
      → (waiting_turn p x s task w).0 ≡ ok t
      → t.result ≡ none
      → left k t.read_state (waiting_turn p x s task w).1 < left k (waiting (some task)) w
  unfolding waiting_turn
  waiting_turn-left k task w t still e goes = ground (arith, still w.trace task)

  turn-left :
      (k : ℕ) (state : ReadState) (buf : List ℕ) (w : World) (t : Turn)
      → IsStillFrom k
      → (turn p x s state buf w).0 ≡ ok t
      → t.result ≡ none
      → left k t.read_state (turn p x s state buf w).1 < left k state w
  unfolding turn
  turn-left k idle buf w t still e goes = idle_turn-left k buf w t e goes
  turn-left k (waiting none) buf w t still e goes = absurd (ground arith)
  turn-left k (waiting (some task)) buf w t still e goes = waiting_turn-left k task w t still e goes
  turn-left k closed buf w t still e goes = absurd (ground arith)

  poll_read-left :
      (k fuel : ℕ) (state : ReadState) (buf : List ℕ) (w : World) (t : Turn)
      → IsStillFrom k
      → left k state w ≤ fuel
      → (poll_read p x s state buf fuel w).0 ≡ ok t
      → t.result ≢ none
  unfolding poll_read
  poll_read-left k zero state buf w t still h e = ground arith
  poll_read-left k (suc fuel) state buf w t still h e =
      elim (Outcome-cases (turn p x s state buf w).0) [
        | inl (t', now) ↦ ground (
          arith,
          now,
          turn-left k state buf w t' still,
          poll_read-left k fuel t'.read_state buf (turn p x s state buf w).1 t still,
        )
        | inr stop ↦ absurd (ground arith)
      ]

  -- If no wait ends because of a packet after `k` calls, the loop of `poll_read` ends in a
  -- result or a panic: two turns for each call left until then, and three more, are enough fuel.
  pub poll_read_ends :
      (k fuel : ℕ) (state : ReadState) (buf : List ℕ) (w : World) (t : Turn)
      → IsStillFrom k
      → 2 * (k - length w.trace) + 3 ≤ fuel
      → (poll_read p x s state buf fuel w).0 ≡ ok t
      → t.result ≢ none
  poll_read_ends k fuel state buf w t still h e =
      poll_read-left k fuel state buf w t still (ground (arith, rank-le state)) e
