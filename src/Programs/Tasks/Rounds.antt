-- ===== src/Programs/Tasks/Rounds.antt =====
-- What the rounds of the tasks of examples/udp-echo-async.rs leave of what was sent and received.
use wintun_bindings.AsyncSession.Defs.{Executor, ReadState, poll_write, waiting, idle, closed}
use wintun_bindings.AsyncSession.PollRead.{idle_turn, turn, poll_read, waiting_turn, polled_turn}
use wintun_bindings.Base.{
  List, ℕ, arith, suc, Outcome, inl, some, ◌≡◌, none, ◌∙◌, refl, Option-cases, inr, zero,
}
use wintun_bindings.Failure.{IoError}
use wintun_bindings.Programs.Async.Polling.{
  Answer, Polls, Writes, answered, some_written, again, none_written, still_polling, not_written,
  write_panicked, panicked, never_again, nothing_left,
}
use wintun_bindings.Session.Arrivals.{arrived}
use wintun_bindings.Session.Calls.{try_receive}
use wintun_bindings.Session.Packet.{Session}
use wintun_bindings.Session.Stream.{delivered}
use wintun_bindings.System.{Platform, Leaves, World, run-cases}
use mathlib.Core.Path.{ap, sym}

module _ (p : Platform) (x : Executor) (s : Session) where
  idle_turn-delivered : (buf : List ℕ) → Leaves (delivered p s.inner) (idle_turn p x s buf)
  unfolding Leaves idle_turn delivered try_receive
  idle_turn-delivered buf w = ground arith

  turn-delivered :
      (state : ReadState) (buf : List ℕ) → Leaves (delivered p s.inner) (turn p x s state buf)
  unfolding Leaves turn waiting_turn polled_turn delivered
  turn-delivered idle buf w = idle_turn-delivered buf w
  turn-delivered (waiting none) buf w = refl
  turn-delivered (waiting (some task)) buf w = ground arith
  turn-delivered closed buf w = refl

  poll_read-delivered :
      (fuel : ℕ) (state : ReadState) (buf : List ℕ)
      → Leaves (delivered p s.inner) (poll_read p x s state buf fuel)
  unfolding Leaves poll_read
  poll_read-delivered zero state buf w = refl
  poll_read-delivered (suc fuel) state buf w =
      let first = turn-delivered state buf w in
      elim (run-cases (turn p x s state buf w)) [
        | inl (t, w₁, r) ↦
            let same : delivered p s.inner w₁.trace ≡ delivered p s.inner w.trace =
              ap (λ y. delivered p s.inner y.1.trace) (sym r) ∙ first in
            elim (Option-cases t.result) [
              | inl z ↦ rw (r, z) (poll_read-delivered fuel t.read_state buf w₁ ∙ same)
              | inr (o, z) ↦ rw (r, z) same
            ]
        | inr (inl (e, w₁, r)) ↦ absurd e
        | inr (inr (w₁, r)) ↦ rw r (ap (λ y. delivered p s.inner y.1.trace) (sym r) ∙ first)
      ]

  -- An awaited read sends nothing.
  pub Polls-delivered :
      {state : ReadState} {buf : List ℕ} {w : World} {o : Outcome ⊥ Answer × World}
      → Polls p x s state buf w o
      → delivered p s.inner o.1.trace ≡ delivered p s.inner w.trace
  unfolding Leaves
  Polls-delivered never_again = refl
  Polls-delivered {state} {buf} {w} (answered fuel state' r w' run) =
      ap (λ y. delivered p s.inner y.1.trace) (sym run) ∙ poll_read-delivered fuel state buf w
  Polls-delivered {state} {buf} {w} (again fuel state' w' o run rest) =
      Polls-delivered rest
      ∙ (ap (λ y. delivered p s.inner y.1.trace) (sym run) ∙ poll_read-delivered fuel state buf w)
  Polls-delivered {state} {buf} {w} (still_polling fuel state' w' run) =
      ap (λ y. delivered p s.inner y.1.trace) (sym run) ∙ poll_read-delivered fuel state buf w
  Polls-delivered {state} {buf} {w} (panicked fuel w' run) =
      ap (λ y. delivered p s.inner y.1.trace) (sym run) ∙ poll_read-delivered fuel state buf w

  poll_write-arrived : (buf : List ℕ) → Leaves (arrived p s.inner) (poll_write p x s buf)
  unfolding Leaves poll_write arrived
  poll_write-arrived buf w = ground arith

  -- An awaited write receives nothing.
  pub Writes-arrived :
      {buf : List ℕ} {w : World} {o : Outcome IoError (Unit {0}) × World}
      → Writes p x s buf w o
      → arrived p s.inner o.1.trace ≡ arrived p s.inner w.trace
  unfolding Leaves
  Writes-arrived nothing_left = refl
  Writes-arrived {buf} {w} (some_written n w' o run more rest) =
      Writes-arrived rest
      ∙ (ap (λ y. arrived p s.inner y.1.trace) (sym run) ∙ poll_write-arrived buf w)
  Writes-arrived {buf} {w} (none_written w' e ne run) =
      ap (λ y. arrived p s.inner y.1.trace) (sym run) ∙ poll_write-arrived buf w
  Writes-arrived {buf} {w} (not_written w' e ne run) =
      ap (λ y. arrived p s.inner y.1.trace) (sym run) ∙ poll_write-arrived buf w
  Writes-arrived {buf} {w} (write_panicked w' ne run) =
      ap (λ y. arrived p s.inner y.1.trace) (sym run) ∙ poll_write-arrived buf w
