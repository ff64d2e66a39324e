-- ===== src/Programs/Tasks/Backlog.antt =====
-- In which order the tasks of examples/udp-echo-async.rs answer what was received, and how much they hold.
use wintun_bindings.AsyncSession.Defs.{Executor}
use wintun_bindings.Base.{
  length, refl, inl, inr, ◌++◌, ◌∷◌, ◌≡◌, Outcome, ◌≤◌, ◌≢◌, ok, ap, sym, ◌∙◌, arith,
}
use wintun_bindings.Failure.{Error}
use wintun_bindings.Programs.Async.{Futures, write_round_async, Round, read_round_async}
use wintun_bindings.Programs.Async.Answers.{NeedsBytes}
use wintun_bindings.Programs.Async.Polling.{IsPolling, IsWriting}
use wintun_bindings.Programs.Echo.{NaiveUdpPacket, RandomApi, PacketCrate}
use wintun_bindings.Programs.Echo.Answers.{IsBuilder}
use wintun_bindings.Programs.Server.{Server, ended, in_round, at_test, Main, Thread}
use wintun_bindings.Programs.Server.InOrder.{
  InOrder, keeps-InOrder, answers-InOrder, alone-InOrder, fails-InOrder,
}
use wintun_bindings.Programs.Server.Reading.{asks as responses, asked}
use wintun_bindings.Programs.Tasks.{ReaderTask, Tasks, sending, left, channel_capacity, reading}
use wintun_bindings.Programs.Tasks.Reading.{task-grows, task-delivered}
use wintun_bindings.Programs.Tasks.Writing.{answer-delivered, answer-arrived}
use wintun_bindings.Session.Arrivals.{arrived}
use wintun_bindings.Session.Calls.{shutdown}
use wintun_bindings.Session.Packet.{Session}
use wintun_bindings.Session.Stream.{delivered}
use wintun_bindings.System.{World, Platform, Leaves}
use mathlib.Core.List.{append-nil, List, []}

-- What the reader has and has not handed over yet.
abbrev pub held_back : ReaderTask → List NaiveUdpPacket
held_back (sending request) = request ∷ []
held_back _ = []

abbrev pub as_thread : ReaderTask → Thread
as_thread left = ended
as_thread _ = in_round

-- The tasks as threads whose channel has no bound, and holds the packet that waits for its place.
abbrev pub unbounded : Tasks → Server
unbounded v = record {
  world = v.world;
  running = v.running;
  queue = v.queue ++ held_back v.reader;
  reader = as_thread v.reader;
  writer = v.writer;
  main = v.main;
}

module _ (p : Platform) (x : Executor) (s : Session) (f : Futures) (polls : IsPolling p x s f)
    (writes : IsWriting p x s f) (random : RandomApi) (c : PacketCrate) (builder : IsBuilder c)
    (needs : NeedsBytes c) where
  abbrev pub InTurn : Tasks → Type 0
  InTurn v = InOrder p random c s (unbounded v) × (length v.queue ≤ channel_capacity)

  -- The reader goes on where it holds nothing, and neither is anything sent nor anything asked.
  pub rests :
      (v v' : Tasks)
      → delivered p s.inner v'.world.trace ≡ delivered p s.inner v.world.trace
      → asked p random c s v'.world.trace ≡ asked p random c s v.world.trace
      → v'.queue ++ held_back v'.reader ≡ v.queue ++ held_back v.reader
      → v'.writer ≡ v.writer
      → (as_thread v'.reader ≢ ended → as_thread v.reader ≢ ended)
      → InOrder p random c s (unbounded v)
      → InOrder p random c s (unbounded v')
  rests v v' none_sent none_asked same writer reads h =
      keeps-InOrder p random c s (unbounded v) (unbounded v') none_sent none_asked same
        (λ alive e. alive (writer ∙ e)) reads h

  pub failed :
      (v : Tasks) (w : World) (o : Outcome Error Round)
      → v.reader ≡ reading
      → read_round_async f c v.read_state v.world ≡ (o, w)
      → InOrder p random c s (unbounded v)
      → InOrder p random c s (unbounded (record v { world = w; reader = left }))
  failed v w o at run h =
      let (new, more) = task-grows p x s f polls c random v.read_state o v.world w run in
      keeps-InOrder p random c s (record (unbounded v) { world = w; reader = ended })
        (unbounded (record v { world = w; reader = left })) refl refl
        (ap (λ r. v.queue ++ held_back r) (sym at)) (λ alive. alive) (λ alive. alive)
        (fails-InOrder p random c s (unbounded v) w new
          (task-delivered p x s f polls c v.read_state o v.world w run) more h)

  pub answered_turn :
      (v : Tasks) (response : NaiveUdpPacket) (rest : List NaiveUdpPacket) (w : World)
      → v.writer ≡ in_round
      → v.queue ≡ response ∷ rest
      → write_round_async f p random c response v.world ≡ (ok tt, w)
      → InOrder p random c s (unbounded v)
      → InOrder p random c s (unbounded (record v { world = w; queue = rest; writer = at_test }))
  unfolding Leaves
  answered_turn v response rest w at first run h =
      elim (answer-delivered p x s f polls writes random c builder needs response v.world) [
        | inr (still, not_done) ↦ absurd (not_done (ap (λ y. y.0) run))
        | inl (done, built, reads, one) ↦
            answers-InOrder p random c s (unbounded v) response (rest ++ held_back v.reader) built w
              (λ e. absurd (ground (arith, at, e))) (ap (λ xs. xs ++ held_back v.reader) first)
              reads (ap (λ y. delivered p s.inner y.1.trace) (sym run) ∙ one)
              (ap (λ y. asked p random c s y.1.trace) (sym run)
                ∙ ap (responses c)
                    (answer-arrived p x s f polls writes random c builder needs response v.world))
              h
      ]

  pub unanswered_turn :
      (v : Tasks) (response : NaiveUdpPacket) (rest : List NaiveUdpPacket) (w : World)
      (o : Outcome Error (Unit {0}))
      → write_round_async f p random c response v.world ≡ (o, w)
      → o ≢ ok tt
      → InOrder p random c s (unbounded v)
      → InOrder p random c s (unbounded (record v { world = w; queue = rest; writer = ended }))
  unfolding Leaves
  unanswered_turn v response rest w o run bad h =
      elim (answer-delivered p x s f polls writes random c builder needs response v.world) [
        | inl (done, built, reads, one) ↦ absurd (bad (sym (ap (λ y. y.0) run) ∙ done))
        | inr (still, not_done) ↦
            alone-InOrder p random c s (unbounded v)
              (unbounded (record v { world = w; queue = rest; writer = ended })) []
              (ap (λ y. delivered p s.inner y.1.trace) (sym run) ∙ still)
              (ap (λ y. asked p random c s y.1.trace) (sym run)
                ∙ ap (responses c)
                    (answer-arrived p x s f polls writes random c builder needs response v.world)
                ∙ sym (append-nil (asked p random c s v.world.trace)))
              refl h
      ]

  pub shut-turn :
      (v : Tasks) (w : World) (o : Outcome Error (Unit {0})) (main' : Main)
      → shutdown p s v.world ≡ (o, w)
      → InOrder p random c s (unbounded v)
      → InOrder p random c s (unbounded (record v { world = w; main = main' }))
  unfolding shutdown delivered arrived
  shut-turn v w o main' run h =
      rests v (record v { world = w; main = main' }) (ground (arith, run)) (ground (arith, run))
        refl refl (λ r. r) h
