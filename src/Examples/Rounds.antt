-- ===== src/Examples/Rounds.antt =====
-- A run of the tasks of examples/udp-echo-async.rs.
use wintun_bindings.AsyncSession.Defs.{idle}
use wintun_bindings.Base.{refl, true, [], arith}
use wintun_bindings.Examples.Asyncs.{
  after_write, futures, strict, once-IsPolling, once-IsWriting, strict-IsBuilder, strict-NeedsBytes,
  after_read, async_reads, async_writes,
}
use wintun_bindings.Examples.Echoes.{random, request, fresh, asked}
use wintun_bindings.Examples.Machine.{session}
use wintun_bindings.Examples.Tasks.{pool}
use wintun_bindings.Programs.Echo.{swapped}
use wintun_bindings.Programs.Server.{at_test, at_prompt}
use wintun_bindings.Programs.Tasks.{
  spawned_here, and_step, task_tests, task_asks, task_sends, answer_tests, answer_sent, testing,
  TaskReach, Tasks, spawned_tasks,
}
use wintun_bindings.Programs.Tasks.Backlog.{InTurn}
use wintun_bindings.Programs.Tasks.Order.{TaskReach-InTurn}
use wintun_bindings.System.{empty_world}

-- A packet was received, handed over and answered.
abbrev has_answered : Tasks
has_answered = record {
  world = after_write;
  running = true;
  read_state = idle;
  queue = [];
  reader = testing;
  writer = at_test;
  main = at_prompt;
}

answers : TaskReach futures asked random strict session (spawned_tasks empty_world) has_answered
answers =
    and_step
      (and_step
        (and_step
          (and_step (and_step spawned_here (task_tests refl))
            (task_asks idle (swapped request) after_read refl async_reads))
          (task_sends (swapped request) refl (λ e. ground (arith, e)) (omega arith)))
        (answer_tests refl))
      (answer_sent (swapped request) [] after_write refl refl async_writes)

TaskReach-InTurn_example :
    InTurn asked pool session futures
      (once-IsPolling asked pool session)
      (once-IsWriting asked pool session)
      random
      strict
      strict-IsBuilder
      strict-NeedsBytes
      has_answered
TaskReach-InTurn_example =
    TaskReach-InTurn asked pool session futures (once-IsPolling asked pool session)
      (once-IsWriting asked pool session) random strict strict-IsBuilder strict-NeedsBytes
      empty_world has_answered fresh.0 fresh.1 answers
