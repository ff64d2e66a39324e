-- ===== src/Examples/Tasks.antt =====
-- Runs of src/async_session.rs.
use wintun_bindings.AsyncSession.Defs.{
  recv, Executor, task_pending, task_done, internal_send, idle, closed, waiting, ready, pending,
}
use wintun_bindings.AsyncSession.Defs.Receiving.{IsShutAfter, recv_shuts}
use wintun_bindings.AsyncSession.Defs.Sending.{internal_send-long}
use wintun_bindings.AsyncSession.PollRead.{poll_read, Turn, turn}
use wintun_bindings.AsyncSession.PollRead.Endings.{poll_read_ends, held-poll_read, IsStillFrom}
use wintun_bindings.AsyncSession.PollRead.Wakeups.{poll_read-registers, IsRegistered, is_resting}
use wintun_bindings.Base.{
  ℕ, ◌≡◌, ◌≢◌, ◌∷◌, [], inr, ok, panic, some, none, true, length, arith, refl, suc, List, zero,
}
use wintun_bindings.Examples.Machine.{busy, quiet, session}
use wintun_bindings.Session.Calls.{try_receive}
use wintun_bindings.Session.Ring.{held, unsent}
use wintun_bindings.System.{empty_world}

-- Every task waits for the shutdown event, which is there at once.
abbrev pub pool : Executor
pool = record {
  unblock_task = λ t. 31;
  can_lock = λ t task. true;
  poll = λ t task. task_done 0;
  awaited = λ t task. 0;
}

abbrev slow_pool : Executor
slow_pool = record pool { poll = λ t task. task_pending }

-- A buffer of `n` zeros.
abbrev zeros : ℕ → List ℕ
zeros zero = []
zeros (suc n) = 0 ∷ zeros n

length-zeros : (n : ℕ) → length (zeros n) ≡ n
length-zeros zero = refl
length-zeros (suc n) = omega (arith, length-zeros n)

internal_send-long_example :
    ((internal_send busy pool session (zeros 65536) empty_world).0 ≡ panic)
    × (unsent busy 5 (internal_send busy pool session (zeros 65536) empty_world).1.trace
        ≡ 8192 ∷ unsent busy 5 [])
internal_send-long_example =
    internal_send-long busy pool session empty_world (zeros 65536)
      (omega (arith, length-zeros 65536)) (ground arith)

abbrev parked : Turn
parked = record { result = some pending; read_state = waiting (some 31) }

parks : (poll_read quiet slow_pool session idle (1 ∷ []) 5 empty_world).0 ≡ ok parked
unfolding poll_read turn try_receive
parks = refl

poll_read-registers_example :
    (is_resting parked.read_state ≡ true)
    × IsRegistered parked (poll_read quiet slow_pool session idle (1 ∷ []) 5 empty_world).1.trace
poll_read-registers_example =
    poll_read-registers quiet slow_pool session 5 idle (1 ∷ []) empty_world parked refl parks

abbrev at_end : Turn
at_end = record { result = some (ready (inr (0, 1 ∷ []))); read_state = closed }

closes : (poll_read quiet pool session idle (1 ∷ []) 3 empty_world).0 ≡ ok at_end
unfolding poll_read turn try_receive
closes = refl

still : IsStillFrom quiet pool session 0
still t task h = inr refl

poll_read_ends_example : at_end.result ≢ none
poll_read_ends_example =
    poll_read_ends quiet pool session 0 3 idle (1 ∷ []) empty_world at_end still (omega arith)
      closes

takes : (poll_read busy pool session idle (1 ∷ []) 3 empty_world).0 ≢ panic
unfolding poll_read turn try_receive
takes = ground arith

held-poll_read_example :
    held busy 5 (poll_read busy pool session idle (1 ∷ []) 3 empty_world).1.trace ≡ held busy 5 []
held-poll_read_example = held-poll_read busy pool session 5 3 idle (1 ∷ []) empty_world takes

shut_after : IsShutAfter quiet pool session (1 ∷ []) 0
shut_after t task h = refl

recv_shuts_example : (recv quiet pool session (1 ∷ []) 1 empty_world).0 ≢ ok none
recv_shuts_example = recv_shuts quiet pool session (1 ∷ []) 0 0 empty_world shut_after (omega arith)
