-- ===== src/Programs/Async/Answers.antt =====
-- What examples/udp-echo-async.rs answers to a UDP packet.
use wintun_bindings.AsyncSession.Defs.{ReadState, Executor}
use wintun_bindings.Base.{
  ℕ, List, ◌≡◌, [], ◌≢◌, ◌∷◌, arith, ok, inr, some, ◌++◌, none, ap, inl, ◌∙◌, sym, Bool-cases, ◌==◌,
  take, Sum-cases,
}
use wintun_bindings.Failure.{Error, io}
use wintun_bindings.Programs.Async.{
  got, still_waiting, closed_session, read_bytes, zeros, Futures, read_round_async,
  write_round_async, asks,
}
use wintun_bindings.Programs.Async.Handing.{Writes-delivered, ReadHands, Polls-ReadHands}
use wintun_bindings.Programs.Async.Polling.{IsPolling, IsWriting}
use wintun_bindings.Programs.Echo.{
  extract_udp_packet, generate_random_bytes, RandomApi, NaiveUdpPacket, PacketCrate, IpPacket,
  swapped,
}
use wintun_bindings.Programs.Echo.Answers.{
  IsBuilder, ask-inr, write_with-cases, extract_udp_packet-build,
}
use wintun_bindings.Programs.Server.Writing.{random-delivered}
use wintun_bindings.Session.Arrivals.{arrived}
use wintun_bindings.Session.Packet.{Session}
use wintun_bindings.Session.Stream.{delivered}
use wintun_bindings.System.{M, map_err, Platform, World, run-cases}
use mathlib.Core.Path.{subst}

-- No bytes are no packet to the crate `packet`.
abbrev pub NeedsBytes : PacketCrate → Type 0
NeedsBytes c = (packet : IpPacket) → c.as_packet [] ≢ inr packet

pub read-filled :
    (c : PacketCrate)
    → NeedsBytes c
    → (built : List ℕ) (request : NaiveUdpPacket) → extract_udp_packet c built ≡ inr request
    → built ≢ []
unfolding extract_udp_packet
read-filled c needs built request reads empty = elim (Sum-cases (c.as_packet [])) [
  | inl (e, z) ↦ ground (arith, reads, empty, z)
  | inr (packet, z) ↦ needs packet z
]

module _ (p : Platform) (x : Executor) (s : Session) (f : Futures) (polls : IsPolling p x s f)
    (writes : IsWriting p x s f) (random : RandomApi) (c : PacketCrate) (builder : IsBuilder c)
    (needs : NeedsBytes c) where
  pub read_bytes-arrived :
      (state state' : ReadState) (data_read : List ℕ) (w w' : World)
      → read_bytes f state w ≡ (ok (got state' data_read), w')
      → arrived p s.inner w'.trace ≡ arrived p s.inner w.trace ++ data_read ∷ []
  unfolding read_bytes
  read_bytes-arrived state state' data_read w w' run =
      elim (run-cases (f.read state (zeros 1500) w)) [
        | inl (none, w₁, r) ↦ absurd (ground (arith, r, run))
        | inl (some (state₁, inl e), w₁, r) ↦ absurd (ground (arith, r, run))
        | inl (some (state₁, inr (len, buf)), w₁, r) ↦ elim (Bool-cases (len == 0)) [
          | inl none_read ↦ absurd (ground (arith, r, run, none_read))
          | inr some_read ↦
              let there : w₁ ≡ w' = ground (arith, r, run, some_read) in
              let all : take len buf ≡ data_read = ground (arith, r, run, some_read) in
              elim (subst (ReadHands p x s w) r
                (Polls-ReadHands p x s (polls state (zeros 1500) w))) [
                  | inr (z, same) ↦ absurd (ground (arith, z, some_read))
                  | inl came ↦
                      ap (λ v. arrived p s.inner v.trace) (sym there)
                      ∙ came
                      ∙ ap (λ xs. arrived p s.inner w.trace ++ xs ∷ []) all
                ]
        ]
        | inr (inl (e, w₁, r)) ↦ absurd e
        | inr (inr (w₁, r)) ↦ absurd (ground (arith, r, run))
      ]

  write_all-delivered :
      (built : List ℕ) (request : NaiveUdpPacket) (w : World)
      → extract_udp_packet c built ≡ inr request
      → (map_err {F = Error} io (f.write_all built) w).0 ≡ ok tt
      → delivered p s.inner (map_err {F = Error} io (f.write_all built) w).1.trace
        ≡ delivered p s.inner w.trace ++ built ∷ []
  write_all-delivered built request w reads done =
      elim (Writes-delivered p x s (writes built w) (read-filled c needs built request reads)) [
        | inl (good, sent) ↦ ground (arith, good, sent)
        | inr (still, bad) ↦ absurd (ground (arith, done, bad))
      ]

  write_async_lem :
      (request : NaiveUdpPacket) (v v' : World)
      → write_round_async f p random c request v ≡ (ok tt, v')
      → (built : List ℕ) × (delivered p s.inner v'.trace
          ≡ delivered p s.inner v.trace ++ built ∷ [])
        × (extract_udp_packet c built ≡ inr request)
  unfolding write_round_async
  write_async_lem request v v' write =
      let deliver : List ℕ → M Error (Unit {0}) = λ ip_packet. map_err io (f.write_all ip_packet) in
      elim (write_with-cases (generate_random_bytes p random 2) c.build deliver
        (delivered p s.inner) request v (random-delivered p random c s)) [
          | inr (same, not_done) ↦ absurd (not_done (ap (λ y. y.0) write))
          | inl (src, dst, id, built, u, from, to, b, same, run) ↦
              let reads = extract_udp_packet-build c request id src dst built builder from to b in
              let ends : deliver built u ≡ (ok tt, v') = sym run ∙ write in
              (
                built,
                ap (λ y. delivered p s.inner y.1.trace) (sym ends)
                    ∙ write_all-delivered built request u reads (ap (λ y. y.0) ends)
                    ∙ ap (λ xs. xs ++ built ∷ []) same,
                reads,
              )
        ]

  -- A UDP packet that the reader of examples/udp-echo-async.rs hands to the writer is the answer to the
  -- one packet that the session has received in addition, and a round of the writer that ends well sends
  -- one packet, which is read as that answer: the packet received, with its addresses swapped. The
  -- conditions are that the crate futures reads and writes by polling the session, that the builder of the
  -- crate `packet` makes what its views read back, and that these read no packet from no bytes.
  pub echo_async-answers :
      (state state' : ReadState) (request : NaiveUdpPacket) (w w' v v' : World)
      → read_round_async f c state w ≡ (ok (asks state' (inr request)), w')
      → write_round_async f p random c request v ≡ (ok tt, v')
      → (data_read : List ℕ) × (received : NaiveUdpPacket) × (built : List ℕ) × (arrived p s.inner
            w'.trace
          ≡ arrived p s.inner w.trace ++ data_read ∷ [])
        × (extract_udp_packet c data_read ≡ inr received)
        × (delivered p s.inner v'.trace ≡ delivered p s.inner v.trace ++ built ∷ [])
        × (extract_udp_packet c built ≡ inr (swapped received))
  unfolding read_round_async write_round_async
  echo_async-answers state state' request w w' v v' read write =
      elim (run-cases (read_bytes f state w)) [
        | inl (still_waiting, w₁, r) ↦ absurd (ground (arith, r, read))
        | inl (closed_session, w₁, r) ↦ absurd (ground (arith, r, read))
        | inl (got state₁ data_read, w₁, r) ↦
            let there : w₁ ≡ w' = ground (arith, r, read) in
            let (received, heard, answer) =
              ask-inr (extract_udp_packet c data_read) request (ground (arith, r, read)) in
            let (built, sent, reads) = write_async_lem request v v' write in
            (
              data_read,
              received,
              built,
              read_bytes-arrived state state₁ data_read w w'
                  (r ∙ ap (λ u. (ok (got state₁ data_read), u)) there),
              heard,
              sent,
              reads ∙ ap inr answer,
            )
        | inr (inl (e, w₁, r)) ↦ absurd (ground (arith, r, read))
        | inr (inr (w₁, r)) ↦ absurd (ground (arith, r, read))
      ]
