-- ===== src/Programs/Server/Order.antt =====
-- In which order the threads of examples/udp-echo.rs answer what was received.
use wintun_bindings.Base.{
  ℕ, some, ◌≡◌, inr, ◌≢◌, refl, ap, ◌∙◌, ◌∷◌, sym, Outcome, arith, err, ok, ◌⊎◌, panic, inl,
}
use wintun_bindings.Failure.{Error}
use wintun_bindings.Programs.Echo.{
  RandomApi, PacketCrate, NaiveUdpPacket, extract_udp_packet, read_round, write_round,
}
use wintun_bindings.Programs.Echo.Answers.{IsBuilder}
use wintun_bindings.Programs.Server.{
  here, Server, Step, reader_tests, reader_asks, reader_refused, reader_skips, reader_fails,
  writer_tests, writer_answers, writer_fails, writer_left, main_stops, ended, main_shuts_down,
  main_fails, main_joins, at_test, Thread, in_round, tested, Reach, spawned, next, joining,
  returned, Main,
}
use wintun_bindings.Programs.Server.InOrder.{
  InOrder, keeps-InOrder, alone-InOrder, answers-InOrder, fails-InOrder, asks-InOrder,
}
use wintun_bindings.Programs.Server.Reading.{
  asked, asks, delivered-read, asked-asks, asked-quiet, asked-grows,
}
use wintun_bindings.Programs.Server.Writing.{write_round-arrived, write_round-delivered}
use wintun_bindings.Session.Arrivals.{arrived}
use wintun_bindings.Session.Calls.{shutdown}
use wintun_bindings.Session.Packet.{Session}
use wintun_bindings.Session.Stream.{delivered}
use wintun_bindings.System.{World, Platform, Leaves}
use mathlib.Core.List.{append-nil, List, map, []}

module _ (p : Platform) (random : RandomApi) (c : PacketCrate) (s : Session)
    (builder : IsBuilder c) where
  not_ended : {t : Thread} → t ≡ in_round → t ≢ ended
  not_ended at e = absurd (ground (arith, at, e))

  tests_alive : {t : Thread} → t ≡ at_test → t ≢ ended
  tests_alive at e = absurd (ground (arith, at, e))

  failed-InOrder :
      (v : Server) (fuel : ℕ) (w : World)
      → ((e : Error) × (read_round p random c s fuel v.world ≡ (err e, w)))
        ⊎ (read_round p random c s fuel v.world ≡ (panic, w))
      → InOrder p random c s v
      → InOrder p random c s (record v { world = w; reader = ended })
  failed-InOrder v fuel w (inl (e, run)) h =
      let (new, some_new) = asked-grows p random c s fuel v.world w (err e) run in
      fails-InOrder p random c s v w new (delivered-read p random c s fuel v.world w (err e) run)
        some_new h
  failed-InOrder v fuel w (inr run) h =
      let (new, some_new) = asked-grows p random c s fuel v.world w panic run in
      fails-InOrder p random c s v w new (delivered-read p random c s fuel v.world w panic run)
        some_new h

  -- What a round of the writer leaves of what was received.
  asked-write :
      (response : NaiveUdpPacket) (w w' : World) (o : Outcome Error (Unit {0}))
      → write_round p random c s response w ≡ (o, w')
      → asked p random c s w'.trace ≡ asked p random c s w.trace
  unfolding Leaves
  asked-write response w w' o run = ap (asks c) (
      ap (λ x. arrived p s.inner x.1.trace) (sym run) ∙ write_round-arrived p random c s response w)

  answered-InOrder :
      (v : Server) (response : NaiveUdpPacket) (queue' : List NaiveUdpPacket) (w : World)
      → v.writer ≡ in_round
      → v.queue ≡ response ∷ queue'
      → write_round p random c s response v.world ≡ (ok tt, w)
      → InOrder p random c s v
      → InOrder p random c s (record v { world = w; queue = queue'; writer = at_test })
  answered-InOrder v response queue' w at first run h =
      elim (write_round-delivered p random c s builder response v.world) [
        | inr (still, not_done) ↦ absurd (not_done (ap (λ x. x.0) run))
        | inl (done, built, reads, one) ↦
            answers-InOrder p random c s v response queue' built w (not_ended at) first reads
              (ap (λ x. delivered p s.inner x.1.trace) (sym run) ∙ one)
              (asked-write response v.world w (ok tt) run) h
      ]

  unanswered-InOrder :
      (v : Server) (response : NaiveUdpPacket) (queue' : List NaiveUdpPacket) (w : World)
      (o : Outcome Error (Unit {0}))
      → write_round p random c s response v.world ≡ (o, w)
      → o ≢ ok tt
      → InOrder p random c s v
      → InOrder p random c s (record v { world = w; queue = queue'; writer = ended })
  unanswered-InOrder v response queue' w o run bad h =
      elim (write_round-delivered p random c s builder response v.world) [
        | inl (done, built, reads, one) ↦ absurd (bad (sym (ap (λ x. x.0) run) ∙ done))
        | inr (still, not_done) ↦
            alone-InOrder p random c s v (record v { world = w; queue = queue'; writer = ended }) []
              (ap (λ x. delivered p s.inner x.1.trace) (sym run) ∙ still)
              (asked-write response v.world w o run
                ∙ sym (append-nil (asked p random c s v.world.trace)))
              refl h
      ]

  shutdown-quiet :
      (v : Server) (w : World) (o : Outcome Error (Unit {0})) (main' : Main)
      → shutdown p s v.world ≡ (o, w)
      → InOrder p random c s v
      → InOrder p random c s (record v { world = w; main = main' })
  unfolding shutdown delivered arrived
  shutdown-quiet v w o main' run h =
      keeps-InOrder p random c s v (record v { world = w; main = main' }) (ground (arith, run))
        (ground (arith, run)) refl (λ r. r) (λ r. r) h

  Step-InOrder :
      {v v' : Server} → Step p random c s v v' → InOrder p random c s v → InOrder p random c s v'
  Step-InOrder {v} (reader_tests at) h =
      keeps-InOrder p random c s v (record v { reader = tested v.running }) refl refl refl (λ r. r)
        (λ r. tests_alive at) h
  Step-InOrder {v} (reader_asks fuel request w at run there) h =
      asks-InOrder p random c s v request w
        (delivered-read p random c s fuel v.world w (ok (some (inr request))) run)
        (asked-asks p random c s fuel v.world w request run) (not_ended at) h
  Step-InOrder {v} (reader_refused fuel request w at run gone) h =
      alone-InOrder p random c s v (record v { world = w; reader = ended }) (request ∷ [])
        (delivered-read p random c s fuel v.world w (ok (some (inr request))) run)
        (asked-asks p random c s fuel v.world w request run) gone h
  Step-InOrder {v} (reader_skips fuel e w at run) h =
      keeps-InOrder p random c s v (record v { world = w; reader = at_test })
        (delivered-read p random c s fuel v.world w (ok (some (inl e))) run)
        (asked-quiet p random c s fuel v.world w (ok (some (inl e))) run (λ r. ground arith)
          (ground arith))
        refl (λ r. r) (λ r. not_ended at) h
  Step-InOrder {v} (reader_fails fuel w at failed) h = failed-InOrder v fuel w failed h
  Step-InOrder {v} (writer_tests at) h =
      keeps-InOrder p random c s v (record v { writer = tested v.running }) refl refl refl
        (λ r. tests_alive at) (λ r. r) h
  Step-InOrder {v} (writer_answers response queue' w at first run) h =
      answered-InOrder v response queue' w at first run h
  Step-InOrder {v} (writer_fails response queue' w at first (inl (e, run))) h =
      unanswered-InOrder v response queue' w (err e) run (ground arith) h
  Step-InOrder {v} (writer_fails response queue' w at first (inr run)) h =
      unanswered-InOrder v response queue' w panic run (ground arith) h
  Step-InOrder {v} (writer_left at empty gone) (answered, rest, sent, all, left) =
      (answered, rest, sent, all, λ w. absurd (w refl))
  Step-InOrder {v} (main_stops at) h = h
  Step-InOrder {v} (main_shuts_down w at run) h = shutdown-quiet v w (ok tt) joining run h
  Step-InOrder {v} (main_fails e w at run) h = shutdown-quiet v w (err e) returned run h
  Step-InOrder {v} (main_joins at gone gone') h = h

  -- From the spawn of the threads on a session that has neither received nor sent, in every
  -- interleaving of their rounds, the packets that were sent are read as the responses to the first
  -- requests that were received, in the order of these. The responses that are left are those in the
  -- queue as long as both threads run. If the reader has ended, there may be further ones after those; once
  -- the writer has ended, those that are left are lost.
  pub Reach-InOrder :
      (w : World) (v : Server)
      → delivered p s.inner w.trace ≡ []
      → arrived p s.inner w.trace ≡ []
      → Reach p random c s (spawned w) v
      → InOrder p random c s v
  unfolding asks
  Reach-InOrder w v no_sent no_received here = (
    [],
    [],
    ap (map (extract_udp_packet c)) no_sent,
    ap (asks c) no_received,
    λ alive. ([], refl, λ r. refl),
  )
  Reach-InOrder w v no_sent no_received (next r st) =
      Step-InOrder st (Reach-InOrder w _ no_sent no_received r)
