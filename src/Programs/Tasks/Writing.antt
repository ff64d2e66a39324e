-- ===== src/Programs/Tasks/Writing.antt =====
-- What the rounds of the tasks of examples/udp-echo-async.rs receive and send.
use wintun_bindings.AsyncSession.Defs.{Executor, ReadState}
use wintun_bindings.Base.{inl, inr, List, Text, ℕ, ◌⊎◌, ◌≡◌, ◌≢◌, [], ok, ◌++◌, ◌∷◌, ap, ◌∙◌, arith}
use wintun_bindings.Failure.{Error, io}
use wintun_bindings.Programs.Async.{asks, Futures, write_round_async, read_round_async}
use wintun_bindings.Programs.Async.Answers.{NeedsBytes, read-filled, read_bytes-arrived}
use wintun_bindings.Programs.Async.Handing.{Writes-delivered}
use wintun_bindings.Programs.Async.Polling.{IsPolling, IsWriting}
use wintun_bindings.Programs.Echo.{
  RandomApi, PacketCrate, NaiveUdpPacket, generate_random_bytes, extract_udp_packet, ask,
}
use wintun_bindings.Programs.Echo.Answers.{IsBuilder, write_with-cases, extract_udp_packet-build}
use wintun_bindings.Programs.Server.Reading.{asks as responses, asks-snoc, asks-snoc_none, asked}
use wintun_bindings.Programs.Server.Writing.{random-arrived, random-delivered}
use wintun_bindings.Programs.Tasks.Reading.{read_round-got}
use wintun_bindings.Programs.Tasks.Rounds.{Writes-arrived}
use wintun_bindings.Session.Arrivals.{arrived}
use wintun_bindings.Session.Packet.{Session}
use wintun_bindings.Session.Stream.{delivered}
use wintun_bindings.System.{Platform, Leaves, World, M, Leaves-map_err, map_err, run-cases}

module _ (p : Platform) (x : Executor) (s : Session) (f : Futures) (polls : IsPolling p x s f)
    (writes : IsWriting p x s f) (random : RandomApi) (c : PacketCrate) (builder : IsBuilder c)
    (needs : NeedsBytes c) where
  came :
      (state state' : ReadState) (answer : Text ⊎ NaiveUdpPacket) (w w' : World)
      → read_round_async f c state w ≡ (ok (asks state' answer), w')
      → (data_read : List ℕ) × (arrived p s.inner w'.trace
          ≡ arrived p s.inner w.trace ++ data_read ∷ [])
        × (ask (extract_udp_packet c data_read) ≡ answer)
  came state state' answer w w' run =
      let (data_read, reads, is) = read_round-got p x s f polls c state state' answer w w' run in
      (
        data_read,
        read_bytes-arrived p x s f polls writes random c builder needs state state' data_read w w'
            reads,
        is,
      )

  pub task-asks :
      (state state' : ReadState) (request : NaiveUdpPacket) (w w' : World)
      → read_round_async f c state w ≡ (ok (asks state' (inr request)), w')
      → asked p random c s w'.trace ≡ asked p random c s w.trace ++ request ∷ []
  task-asks state state' request w w' run =
      let (data_read, more, is) = came state state' (inr request) w w' run in
      ap (responses c) more ∙ asks-snoc c (arrived p s.inner w.trace) data_read request is

  pub task-quiet :
      (state state' : ReadState) (e : Text) (w w' : World)
      → read_round_async f c state w ≡ (ok (asks state' (inl e)), w')
      → asked p random c s w'.trace ≡ asked p random c s w.trace
  task-quiet state state' e w w' run =
      let (data_read, more, is) = came state state' (inl e) w w' run in
      ap (responses c) more ∙ asks-snoc_none c (arrived p s.inner w.trace) data_read e is

  abbrev deliver : List ℕ → M Error (Unit {0})
  deliver ip_packet = map_err io (f.write_all ip_packet)

  deliver-arrived : (built : List ℕ) → Leaves (arrived p s.inner) (deliver built)
  unfolding Leaves
  deliver-arrived built =
      Leaves-map_err (arrived p s.inner) io (f.write_all built)
        (λ w. Writes-arrived p x s (writes built w))

  pub answer-arrived :
      (response : NaiveUdpPacket)
      → Leaves (arrived p s.inner) (write_round_async f p random c response)
  unfolding Leaves write_round_async
  answer-arrived response w =
      elim (write_with-cases (generate_random_bytes p random 2) c.build deliver (arrived p s.inner)
        response w (random-arrived p random c s)) [
          | inr (same, not_done) ↦ same
          | inl (src, dst, id, built, w', from, to, b, same, run) ↦
              ap (λ y. arrived p s.inner y.1.trace) run ∙ deliver-arrived built w' ∙ same
        ]

  deliver-delivered :
      (built : List ℕ) (w : World)
      → built ≢ []
      → ((deliver built w).0 ≡ ok tt)
          × (delivered p s.inner (deliver built w).1.trace
              ≡ delivered p s.inner w.trace ++ built ∷ [])
        ⊎ (delivered p s.inner (deliver built w).1.trace ≡ delivered p s.inner w.trace)
          × ((deliver built w).0 ≢ ok tt)
  deliver-delivered built w ne = elim (Writes-delivered p x s (writes built w) ne) [
    | inl (good, sent) ↦ inl (ground (arith, good), ground (arith, good, sent))
    | inr (still, bad) ↦ elim (run-cases (f.write_all built w)) [
      | inl (done, w₁, r) ↦ absurd (bad (ap (λ y. y.0) r))
      | inr (inl (e, w₁, r)) ↦ inr (ground (arith, r, still), ground (arith, r))
      | inr (inr (w₁, r)) ↦ inr (ground (arith, r, still), ground (arith, r))
    ]
  ]

  -- A round of the writer that ends well sends one packet, which is read as the response. Any other
  -- sends none.
  pub answer-delivered :
      (response : NaiveUdpPacket) (w : World)
      → let r = write_round_async f p random c response w in
        ((r.0 ≡ ok tt)
          × (built : List ℕ) × (extract_udp_packet c built ≡ inr response)
          × (delivered p s.inner r.1.trace ≡ delivered p s.inner w.trace ++ built ∷ []))
        ⊎ ((delivered p s.inner r.1.trace ≡ delivered p s.inner w.trace) × (r.0 ≢ ok tt))
  unfolding write_round_async
  answer-delivered response w =
      elim (write_with-cases (generate_random_bytes p random 2) c.build deliver
        (delivered p s.inner) response w (random-delivered p random c s)) [
          | inr done ↦ inr done
          | inl (src, dst, id, built, w', from, to, b, same, run) ↦
              let reads = extract_udp_packet-build c response id src dst built builder from to b in
              rw run (elim (deliver-delivered built w' (read-filled c needs built response reads)) [
                | inl (done, more) ↦
                    inl (done, built, reads, more ∙ ap (λ xs. xs ++ built ∷ []) same)
                | inr (still, not_done) ↦ inr (still ∙ same, not_done)
              ])
        ]
