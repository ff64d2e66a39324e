-- ===== src/Programs/Tasks/Order.antt =====
-- That the tasks of examples/udp-echo-async.rs answer in order, in every interleaving.
use wintun_bindings.AsyncSession.Defs.{Executor, ReadState}
use wintun_bindings.Base.{
  panic, length-append, true, false, length, refl, inl, inr, ◌≡◌, ◌++◌, ◌≤◌, ◌∷◌, ◌≢◌, ok, arith,
  sym, Bool, ap, ◌∙◌, err,
}
use wintun_bindings.Programs.Async.{asks, ends, Futures, read_round_async}
use wintun_bindings.Programs.Async.Answers.{NeedsBytes}
use wintun_bindings.Programs.Async.Polling.{IsPolling, IsWriting}
use wintun_bindings.Programs.Echo.{extract_udp_packet, RandomApi, PacketCrate, NaiveUdpPacket}
use wintun_bindings.Programs.Echo.Answers.{IsBuilder}
use wintun_bindings.Programs.Server.{at_test, ended, tested, joining, returned}
use wintun_bindings.Programs.Server.InOrder.{InOrder, alone-InOrder, keeps-InOrder, asks-InOrder}
use wintun_bindings.Programs.Server.Reading.{asked, asks as responses}
use wintun_bindings.Programs.Tasks.{
  answer_left, task_main_stops, task_main_shuts_down, task_main_fails, TaskReach, spawned_tasks,
  task_main_awaits, and_step, spawned_here, sending, left, reading, testing, ReaderTask, Tasks,
  TaskStep, channel_capacity, task_sends, task_tests, answer_sent, goes_on, answer_fails, task_asks,
  task_skips, task_leaves, task_fails, task_refused, answer_tests,
}
use wintun_bindings.Programs.Tasks.Backlog.{
  as_thread, unbounded, held_back, rests, failed, answered_turn, unanswered_turn, shut-turn, InTurn,
}
use wintun_bindings.Programs.Tasks.Reading.{task-delivered}
use wintun_bindings.Programs.Tasks.Writing.{task-quiet, task-asks}
use wintun_bindings.Session.Arrivals.{arrived}
use wintun_bindings.Session.Packet.{Session}
use wintun_bindings.Session.Stream.{delivered}
use wintun_bindings.System.{Platform, World}
use mathlib.Core.List.{append-nil, [], map}

module _ (p : Platform) (x : Executor) (s : Session) (f : Futures) (polls : IsPolling p x s f)
    (writes : IsWriting p x s f) (random : RandomApi) (c : PacketCrate) (builder : IsBuilder c)
    (needs : NeedsBytes c) where
  alive_in : {r : ReaderTask} → r ≡ reading → as_thread r ≢ ended
  alive_in at e = absurd (ground (arith, at, e))

  asked_turn :
      (v : Tasks) (state : ReadState) (request : NaiveUdpPacket) (w : World)
      → v.reader ≡ reading
      → read_round_async f c v.read_state v.world ≡ (ok (asks state (inr request)), w)
      → InOrder p random c s (unbounded v)
      → InOrder p random c s
          (unbounded (record v { world = w; read_state = state; reader = sending request }))
  asked_turn v state request w at run h =
      let none_held : v.queue ++ held_back v.reader ≡ v.queue =
        ap (λ r. v.queue ++ held_back r) at ∙ append-nil v.queue in
      keeps-InOrder p random c s
        (record (unbounded v) {
          world = w;
          queue = (v.queue ++ held_back v.reader) ++ request ∷ [];
          reader = at_test;
        })
        (unbounded (record v { world = w; read_state = state; reader = sending request })) refl refl
        (ap (λ xs. xs ++ request ∷ []) (sym none_held)) (λ alive. alive)
        (λ alive e. absurd (ground (arith, e)))
        (asks-InOrder p random c s (unbounded v) request w
          (task-delivered p x s f polls c v.read_state (ok (asks state (inr request))) v.world w
            run)
          (task-asks p x s f polls writes random c builder needs v.read_state state request v.world
            w run)
          (alive_in at) h)

  refused_turn :
      (v : Tasks)
      → v.writer ≡ ended
      → InOrder p random c s (unbounded v)
      → InOrder p random c s (unbounded (record v { reader = left }))
  refused_turn v gone h =
      alone-InOrder p random c s (unbounded v) (unbounded (record v { reader = left })) [] refl
        (sym (append-nil (asked p random c s v.world.trace))) gone h

  TaskStep-InOrder :
      {v v' : Tasks}
      → TaskStep f p random c s v v'
      → InOrder p random c s (unbounded v)
      → InOrder p random c s (unbounded v')
  TaskStep-InOrder {v} (task_tests at) h =
      rests p x s f polls writes random c builder needs v (record v { reader = goes_on v.running })
        refl refl (tested_holds v.running ∙ ap (λ r. v.queue ++ held_back r) (sym at)) refl
        (λ alive e. absurd (ground (arith, at, e))) h
    where
      tested_holds :
          (running : Bool) → v.queue ++ held_back (goes_on running) ≡ v.queue ++ held_back testing
      tested_holds true = refl
      tested_holds false = refl
  TaskStep-InOrder {v} (task_asks state request w at run) h = asked_turn v state request w at run h
  TaskStep-InOrder {v} (task_skips state e w at run) h =
      rests p x s f polls writes random c builder needs v
        (record v { world = w; read_state = state; reader = testing })
        (task-delivered p x s f polls c v.read_state (ok (asks state (inl e))) v.world w run)
        (task-quiet p x s f polls writes random c builder needs v.read_state state e v.world w run)
        (ap (λ r. v.queue ++ held_back r) (sym at)) refl (λ alive. alive_in at) h
  TaskStep-InOrder {v} (task_leaves w at run) h =
      failed p x s f polls writes random c builder needs v w (ok ends) at run h
  TaskStep-InOrder {v} (task_fails w at (inl (e, run))) h =
      failed p x s f polls writes random c builder needs v w (err e) at run h
  TaskStep-InOrder {v} (task_fails w at (inr run)) h =
      failed p x s f polls writes random c builder needs v w panic at run h
  TaskStep-InOrder {v} (task_sends request at there room) h =
      rests p x s f polls writes random c builder needs v
        (record v { queue = v.queue ++ request ∷ []; reader = testing }) refl refl
        (append-nil (v.queue ++ request ∷ []) ∙ ap (λ r. v.queue ++ held_back r) (sym at)) refl
        (λ alive e. absurd (ground (arith, at, e))) h
  TaskStep-InOrder {v} (task_refused request at gone) h = refused_turn v gone h
  TaskStep-InOrder {v} (answer_tests at) h =
      keeps-InOrder p random c s (unbounded v) (unbounded (record v { writer = tested v.running }))
        refl refl refl (λ alive e. absurd (ground (arith, at, e))) (λ alive. alive) h
  TaskStep-InOrder {v} (answer_sent response rest w at first run) h =
      answered_turn p x s f polls writes random c builder needs v response rest w at first run h
  TaskStep-InOrder {v} (answer_fails response rest w at first (inl (e, run))) h =
      unanswered_turn p x s f polls writes random c builder needs v response rest w (err e) run
        (ground arith) h
  TaskStep-InOrder {v} (answer_fails response rest w at first (inr run)) h =
      unanswered_turn p x s f polls writes random c builder needs v response rest w panic run
        (ground arith) h
  TaskStep-InOrder {v} (answer_left at empty gone) (answered, rest, sent, all, more) =
      (answered, rest, sent, all, λ alive. absurd (alive refl))
  TaskStep-InOrder {v} (task_main_stops at) h = h
  TaskStep-InOrder {v} (task_main_shuts_down w at run) h =
      shut-turn p x s f polls writes random c builder needs v w (ok tt) joining run h
  TaskStep-InOrder {v} (task_main_fails e w at run) h =
      shut-turn p x s f polls writes random c builder needs v w (err e) returned run h
  TaskStep-InOrder {v} (task_main_awaits at gone gone') h = h

  -- The queue never holds more than it has places.
  TaskStep-bounded :
      {v v' : Tasks}
      → TaskStep f p random c s v v'
      → length v.queue ≤ channel_capacity
      → length v'.queue ≤ channel_capacity
  TaskStep-bounded {v} (task_sends request at there room) h =
      omega (arith, room, length-append v.queue (request ∷ []))
  TaskStep-bounded {v} (answer_sent response rest w at first run) h =
      omega (arith, h, ap length first)
  TaskStep-bounded {v} (answer_fails response rest w at first broken) h =
      omega (arith, h, ap length first)
  TaskStep-bounded (task_tests at) h = h
  TaskStep-bounded (task_asks state request w at run) h = h
  TaskStep-bounded (task_skips state e w at run) h = h
  TaskStep-bounded (task_leaves w at run) h = h
  TaskStep-bounded (task_fails w at broken) h = h
  TaskStep-bounded (task_refused request at gone) h = h
  TaskStep-bounded (answer_tests at) h = h
  TaskStep-bounded (answer_left at empty gone) h = h
  TaskStep-bounded (task_main_stops at) h = h
  TaskStep-bounded (task_main_shuts_down w at run) h = h
  TaskStep-bounded (task_main_fails e w at run) h = h
  TaskStep-bounded (task_main_awaits at gone gone') h = h

  -- From the spawn of the tasks on a session that has neither received nor sent, in every interleaving
  -- of their rounds, the packets that were sent are read as the responses to the first requests that
  -- were received, in the order of these. The responses that are left are those in the channel and the
  -- one that waits for its place, as long as both tasks run; if the reader has ended, there may be
  -- further ones after those, and once the writer has ended, those that are left are lost. The channel
  -- never holds more than 1000. The conditions are those on the crates futures and packet.
  pub TaskReach-InTurn :
      (w : World) (v : Tasks)
      → delivered p s.inner w.trace ≡ []
      → arrived p s.inner w.trace ≡ []
      → TaskReach f p random c s (spawned_tasks w) v
      → InTurn p x s f polls writes random c builder needs v
  unfolding responses
  TaskReach-InTurn w v no_sent no_received spawned_here = (
    (
      [],
      [],
      ap (map (extract_udp_packet c)) no_sent,
      ap (responses c) no_received,
      λ alive. ([], refl, λ r. refl),
    ),
    omega arith,
  )
  TaskReach-InTurn w v no_sent no_received (and_step r st) =
      let (turn, room) = TaskReach-InTurn w _ no_sent no_received r in
      (TaskStep-InOrder st turn, TaskStep-bounded st room)
