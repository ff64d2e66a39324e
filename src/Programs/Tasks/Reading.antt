-- ===== src/Programs/Tasks/Reading.antt =====
-- What a round of the reader of examples/udp-echo-async.rs makes of what the session has received.
use mathlib.Core.List.{append-nil}
use wintun_bindings.AsyncSession.Defs.{Executor, ReadState}
use wintun_bindings.Base.{
  none, take, refl, ◌∷◌, err, panic, Text, ◌≡◌, Outcome, ◌⊎◌, List, inl, ok, some, ℕ, inr, ◌++◌,
  ◌∙◌, [], arith,
}
use wintun_bindings.Failure.{Error}
use wintun_bindings.Programs.Async.{
  still_waiting, closed_session, got, zeros, asks, Futures, read_bytes, read_round_async, Round,
}
use wintun_bindings.Programs.Async.Handing.{ReadHands, Polls-ReadHands}
use wintun_bindings.Programs.Async.Polling.{IsPolling, Answer}
use wintun_bindings.Programs.Echo.{PacketCrate, RandomApi, NaiveUdpPacket, ask, extract_udp_packet}
use wintun_bindings.Programs.Server.Reading.{asks as responses, asks-append, asked}
use wintun_bindings.Programs.Tasks.Rounds.{Polls-delivered}
use wintun_bindings.Session.Arrivals.{arrived}
use wintun_bindings.Session.Packet.{Session}
use wintun_bindings.Session.Stream.{delivered}
use wintun_bindings.System.{Platform, World, run-cases}
use mathlib.Core.Path.{◌≡◌, ap, sym}

module _ (p : Platform) (x : Executor) (s : Session) (f : Futures) (polls : IsPolling p x s f)
    (c : PacketCrate) where
  ReadHands-grows :
      (w : World) (o : Outcome ⊥ Answer × World)
      → ReadHands p x s w o
      → (new : List (List ℕ)) × (arrived p s.inner o.1.trace ≡ arrived p s.inner w.trace ++ new)
  ReadHands-grows w (ok none, w') h = ([], h ∙ sym (append-nil (arrived p s.inner w.trace)))
  ReadHands-grows w (ok (some (state, inl e)), w') h = h
  ReadHands-grows w (ok (some (state, inr (len, buf))), w') (inl h) = (take len buf ∷ [], h)
  ReadHands-grows w (ok (some (state, inr (len, buf))), w') (inr (z, h)) =
      ([], h ∙ sym (append-nil (arrived p s.inner w.trace)))
  ReadHands-grows w (err e, w') h = absurd e
  ReadHands-grows w (panic, w') h = h

  -- The calls of a round are those of its read.
  read_bytes-world :
      (state : ReadState) (w : World) → (read_bytes f state w).1 ≡ (f.read state (zeros 1500) w).1
  unfolding read_bytes
  read_bytes-world state w = elim (run-cases (f.read state (zeros 1500) w)) [
    | inl (none, w₁, r) ↦ rw r refl
    | inl (some (state₁, inl e), w₁, r) ↦ rw r refl
    | inl (some (state₁, inr (len, buf)), w₁, r) ↦ rw r refl
    | inr (inl (e, w₁, r)) ↦ absurd e
    | inr (inr (w₁, r)) ↦ rw r refl
  ]

  read_round-world :
      (state : ReadState) (w : World)
      → (read_round_async f c state w).1 ≡ (f.read state (zeros 1500) w).1
  unfolding read_round_async
  read_round-world state w =
      let same = read_bytes-world state w in
      elim (run-cases (read_bytes f state w)) [
        | inl (still_waiting, w₁, r) ↦ rw r (ap (λ y. y.1) (sym r) ∙ same)
        | inl (closed_session, w₁, r) ↦ rw r (ap (λ y. y.1) (sym r) ∙ same)
        | inl (got state' data_read, w₁, r) ↦ rw r (ap (λ y. y.1) (sym r) ∙ same)
        | inr (inl (e, w₁, r)) ↦ rw r (ap (λ y. y.1) (sym r) ∙ same)
        | inr (inr (w₁, r)) ↦ rw r (ap (λ y. y.1) (sym r) ∙ same)
      ]

  pub read_round-got :
      (state state' : ReadState) (answer : Text ⊎ NaiveUdpPacket) (w w' : World)
      → read_round_async f c state w ≡ (ok (asks state' answer), w')
      → (data_read : List ℕ) × (read_bytes f state w ≡ (ok (got state' data_read), w'))
        × (ask (extract_udp_packet c data_read) ≡ answer)
  unfolding read_round_async
  read_round-got state state' answer w w' run = elim (run-cases (read_bytes f state w)) [
    | inl (still_waiting, w₁, r) ↦ absurd (ground (arith, r, run))
    | inl (closed_session, w₁, r) ↦ absurd (ground (arith, r, run))
    | inl (got state₁ data_read, w₁, r) ↦
        (data_read, ground (arith, r, run), ground (arith, r, run))
    | inr (inl (e, w₁, r)) ↦ absurd (ground (arith, r, run))
    | inr (inr (w₁, r)) ↦ absurd (ground (arith, r, run))
  ]

  pub task-grows :
      (random : RandomApi) (state : ReadState) (o : Outcome Error Round) (w w' : World)
      → read_round_async f c state w ≡ (o, w')
      → (new : List NaiveUdpPacket) × (asked p random c s w'.trace
          ≡ asked p random c s w.trace ++ new)
  task-grows random state o w w' run =
      let (new, more) =
        ReadHands-grows w (f.read state (zeros 1500) w)
          (Polls-ReadHands p x s (polls state (zeros 1500) w)) in
      let there = ap (λ y. y.1) (sym run) ∙ read_round-world state w in
      (
        responses c new,
        ap (λ v. responses c (arrived p s.inner v.trace)) there
            ∙ ap (responses c) more
            ∙ asks-append c (arrived p s.inner w.trace) new,
      )

  pub task-delivered :
      (state : ReadState) (o : Outcome Error Round) (w w' : World)
      → read_round_async f c state w ≡ (o, w')
      → delivered p s.inner w'.trace ≡ delivered p s.inner w.trace
  task-delivered state o w w' run =
      ap (λ v. delivered p s.inner v.trace) (ap (λ y. y.1) (sym run) ∙ read_round-world state w)
      ∙ Polls-delivered p x s (polls state (zeros 1500) w)
