-- ===== src/Programs/Tasks.antt =====
-- The tasks of examples/udp-echo-async.rs as steps: the reader, the writer, and `main`, which stops them.
-- A step is a round of a task or what a task does between two rounds, in any order; the channel between
-- the tasks holds a thousand packets, and the reader waits where it is full.
pub mod Rounds
pub mod Reading
pub mod Writing
pub mod Backlog
pub mod Order
use wintun_bindings.AsyncSession.Defs.{ReadState}
use wintun_bindings.Base.{
  true, Bool, ℕ, if◌then◌else◌, [], List, ◌≡◌, ok, inr, Text, inl, err, ◌⊎◌, panic, ◌≢◌, length,
  ◌<◌, ◌++◌, ◌∷◌, false,
}
use wintun_bindings.Failure.{Error}
use wintun_bindings.Programs.Async.{
  Futures, from_session, read_round_async, asks, ends, write_round_async,
}
use wintun_bindings.Programs.Echo.{NaiveUdpPacket, RandomApi, PacketCrate}
use wintun_bindings.Programs.Server.{
  Thread, at_test, at_prompt, Main, ended, tested, in_round, stopping, joining, returned,
}
use wintun_bindings.Session.Calls.{shutdown}
use wintun_bindings.Session.Packet.{Session}
use wintun_bindings.System.{World, Platform, attempt, error}

-- `channel::<NaiveUdpPacket>(1000)`
abbrev pub channel_capacity : ℕ
channel_capacity = 1000

-- Where the reader is: at the test of its loop, in its read, at `tx.send(..).await`, or at its end, where
-- it has dropped its end of the channel.
pub data ReaderTask : Type 0 where
  testing reading left : ReaderTask
  sending : NaiveUdpPacket → ReaderTask

-- Both tasks have been spawned, or have gone on. `read_state` is that of the session of the reader.
pub record Tasks : Type 0 where
  pub world : World
  pub running : Bool
  pub read_state : ReadState
  pub queue : List NaiveUdpPacket
  pub reader : ReaderTask
  pub writer : Thread
  pub main : Main

abbrev pub spawned_tasks : World → Tasks
spawned_tasks w = record {
  world = w;
  running = true;
  read_state = from_session;
  queue = [];
  reader = testing;
  writer = at_test;
  main = at_prompt;
}

-- What the reader does at the test of its loop.
abbrev pub goes_on : Bool → ReaderTask
goes_on running = if running then reading else left

module _ (f : Futures) (p : Platform) (random : RandomApi) (crate_packet : PacketCrate)
    (s : Session) where
  pub data TaskStep (v : Tasks) : Tasks → Type 0 where
    task_tests : v.reader ≡ testing → TaskStep v (record v { reader = goes_on v.running })
    task_asks :
        (state : ReadState) (request : NaiveUdpPacket) (w : World)
        → v.reader ≡ reading
        → read_round_async f crate_packet v.read_state v.world ≡ (ok (asks state (inr request)), w)
        → TaskStep v (record v { world = w; read_state = state; reader = sending request })
    -- A packet that is no UDP packet of IPv4 is only printed.
    task_skips :
        (state : ReadState) (e : Text) (w : World)
        → v.reader ≡ reading
        → read_round_async f crate_packet v.read_state v.world ≡ (ok (asks state (inl e)), w)
        → TaskStep v (record v { world = w; read_state = state; reader = testing })
    task_leaves :
        (w : World)
        → v.reader ≡ reading
        → read_round_async f crate_packet v.read_state v.world ≡ (ok ends, w)
        → TaskStep v (record v { world = w; reader = left })
    task_fails :
        (w : World)
        → v.reader ≡ reading
        → ((e : Error) × (read_round_async f crate_packet v.read_state v.world ≡ (err e, w)))
          ⊎ (read_round_async f crate_packet v.read_state v.world ≡ (panic, w))
        → TaskStep v (record v { world = w; reader = left })
    task_sends :
        (request : NaiveUdpPacket)
        → v.reader ≡ sending request
        → v.writer ≢ ended
        → length v.queue < channel_capacity
        → TaskStep v (record v { queue = v.queue ++ request ∷ []; reader = testing })
    -- `tx.send` fails where the writer has ended.
    task_refused :
        (request : NaiveUdpPacket)
        → v.reader ≡ sending request
        → v.writer ≡ ended
        → TaskStep v (record v { reader = left })
    answer_tests : v.writer ≡ at_test → TaskStep v (record v { writer = tested v.running })
    answer_sent :
        (response : NaiveUdpPacket) (rest : List NaiveUdpPacket) (w : World)
        → v.writer ≡ in_round
        → v.queue ≡ response ∷ rest
        → write_round_async f p random crate_packet response v.world ≡ (ok tt, w)
        → TaskStep v (record v { world = w; queue = rest; writer = at_test })
    answer_fails :
        (response : NaiveUdpPacket) (rest : List NaiveUdpPacket) (w : World)
        → v.writer ≡ in_round
        → v.queue ≡ response ∷ rest
        → ((e : Error) × (write_round_async f p random crate_packet response v.world ≡ (err e, w)))
          ⊎ (write_round_async f p random crate_packet response v.world ≡ (panic, w))
        → TaskStep v (record v { world = w; queue = rest; writer = ended })
    -- `rx.recv` gives nothing where the queue is empty and the reader has ended.
    answer_left :
        v.writer ≡ in_round
        → v.queue ≡ []
        → v.reader ≡ left
        → TaskStep v (record v { writer = ended })
    task_main_stops :
        v.main ≡ at_prompt → TaskStep v (record v { running = false; main = stopping })
    task_main_shuts_down :
        (w : World)
        → v.main ≡ stopping
        → shutdown p s v.world ≡ (ok tt, w)
        → TaskStep v (record v { world = w; main = joining })
    -- The error ends the program.
    task_main_fails :
        (e : Error) (w : World)
        → v.main ≡ stopping
        → shutdown p s v.world ≡ (err e, w)
        → TaskStep v (record v { world = w; main = returned })
    task_main_awaits :
        v.main ≡ joining
        → v.reader ≡ left
        → v.writer ≡ ended
        → TaskStep v (record v { main = returned })

  pub data TaskReach (v : Tasks) : Tasks → Type 0 where
    spawned_here : TaskReach v v
    and_step : {a b : Tasks} → TaskReach v a → TaskStep a b → TaskReach v b
