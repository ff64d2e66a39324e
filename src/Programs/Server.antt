-- ===== src/Programs/Server.antt =====
-- The threads of examples/udp-echo.rs as steps: the reader, the writer, and `main`, which stops them.
-- A step is a round of a thread or what a thread does between two rounds, in any order; the channel
-- between the threads is a queue without a bound.
pub mod Reading
pub mod Writing
pub mod InOrder
pub mod Order
pub mod Ending
use wintun_bindings.Base.{
  ℕ, Bool, if◌then◌else◌, true, List, [], ◌≡◌, ok, some, inr, ◌≢◌, ◌++◌, ◌∷◌, Text, inl, err, ◌⊎◌,
  panic, false,
}
use wintun_bindings.Failure.{Error}
use wintun_bindings.Programs.Echo.{RandomApi, PacketCrate, NaiveUdpPacket, read_round, write_round}
use wintun_bindings.Session.Calls.{shutdown}
use wintun_bindings.Session.Packet.{Session}
use wintun_bindings.System.{Platform, World}

-- Where a thread is in its loop `while RUNNING.load(..)`. A thread whose closure has ended has dropped
-- its end of the channel.
pub data Thread : Type 0 where
  at_test in_round ended : Thread

-- `main` waits for a line; has cleared `RUNNING`; has shut the session down, and joins the threads; or
-- has returned.
pub data Main : Type 0 where
  at_prompt stopping joining returned : Main

pub record Server : Type 0 where
  pub world : World
  pub running : Bool
  pub queue : List NaiveUdpPacket
  pub reader : Thread
  pub writer : Thread
  pub main : Main

-- Both threads have been spawned.
abbrev pub spawned : World → Server
spawned w = record {
  world = w;
  running = true;
  queue = [];
  reader = at_test;
  writer = at_test;
  main = at_prompt;
}

-- What a thread does at the test of its loop.
abbrev pub tested : Bool → Thread
tested running = if running then in_round else ended

module _ (p : Platform) (random : RandomApi) (crate_packet : PacketCrate) (s : Session) where
  pub data Step (v : Server) : Server → Type 0 where
    reader_tests : v.reader ≡ at_test → Step v (record v { reader = tested v.running })
    -- `tx.send` fails where the writer has ended.
    reader_asks :
        (fuel : ℕ) (request : NaiveUdpPacket) (w : World)
        → v.reader ≡ in_round
        → read_round p random crate_packet s fuel v.world ≡ (ok (some (inr request)), w)
        → v.writer ≢ ended
        → Step v (record v { world = w; queue = v.queue ++ request ∷ []; reader = at_test })
    reader_refused :
        (fuel : ℕ) (request : NaiveUdpPacket) (w : World)
        → v.reader ≡ in_round
        → read_round p random crate_packet s fuel v.world ≡ (ok (some (inr request)), w)
        → v.writer ≡ ended
        → Step v (record v { world = w; reader = ended })
    -- A packet that is no UDP packet of IPv4 is only printed.
    reader_skips :
        (fuel : ℕ) (e : Text) (w : World)
        → v.reader ≡ in_round
        → read_round p random crate_packet s fuel v.world ≡ (ok (some (inl e)), w)
        → Step v (record v { world = w; reader = at_test })
    reader_fails :
        (fuel : ℕ) (w : World)
        → v.reader ≡ in_round
        → ((e : Error) × (read_round p random crate_packet s fuel v.world ≡ (err e, w)))
          ⊎ (read_round p random crate_packet s fuel v.world ≡ (panic, w))
        → Step v (record v { world = w; reader = ended })
    writer_tests : v.writer ≡ at_test → Step v (record v { writer = tested v.running })
    writer_answers :
        (response : NaiveUdpPacket) (rest : List NaiveUdpPacket) (w : World)
        → v.writer ≡ in_round
        → v.queue ≡ response ∷ rest
        → write_round p random crate_packet s response v.world ≡ (ok tt, w)
        → Step v (record v { world = w; queue = rest; writer = at_test })
    writer_fails :
        (response : NaiveUdpPacket) (rest : List NaiveUdpPacket) (w : World)
        → v.writer ≡ in_round
        → v.queue ≡ response ∷ rest
        → ((e : Error) × (write_round p random crate_packet s response v.world ≡ (err e, w)))
          ⊎ (write_round p random crate_packet s response v.world ≡ (panic, w))
        → Step v (record v { world = w; queue = rest; writer = ended })
    -- `rx.recv` fails where the queue is empty and the reader has ended.
    writer_left :
        v.writer ≡ in_round → v.queue ≡ [] → v.reader ≡ ended → Step v (record v { writer = ended })
    main_stops : v.main ≡ at_prompt → Step v (record v { running = false; main = stopping })
    main_shuts_down :
        (w : World)
        → v.main ≡ stopping
        → shutdown p s v.world ≡ (ok tt, w)
        → Step v (record v { world = w; main = joining })
    -- The error ends the process, and cuts the threads off.
    main_fails :
        (e : Error) (w : World)
        → v.main ≡ stopping
        → shutdown p s v.world ≡ (err e, w)
        → Step v (record v { world = w; main = returned })
    main_joins :
        v.main ≡ joining
        → v.reader ≡ ended
        → v.writer ≡ ended
        → Step v (record v { main = returned })

  pub data Reach (v : Server) : Server → Type 0 where
    here : Reach v v
    next : {a b : Server} → Reach v a → Step a b → Reach v b
