-- ===== src/Programs/Tunnel/Pinging.antt =====
-- What the sending thread of examples/wireshark.rs leaves unsent.
use wintun_bindings.Base.{
  ℕ, Text, Outcome, ◌⊎◌, List, ◌∷◌, ◌≡◌, [], inl, ◌≢◌, ok, Sum-cases, inr, arith, Bool, ap, suc,
  sym, ◌∙◌, Bool-cases, zero, refl, err, panic,
}
use wintun_bindings.Failure.{Error}
use wintun_bindings.Programs.Tunnel.{PingCrate, filled, ping_round, ping_packets}
use wintun_bindings.Session.Calls.{allocate}
use wintun_bindings.Session.Packet.{Packet, Session, send_packet_pending}
use wintun_bindings.Session.Ring.{unsent, erase-cons_self}
use wintun_bindings.Session.Ring.Balance.{unsent-send_packet_of}
use wintun_bindings.System.{Trace, Platform, World, run-cases}

module _ (p : Platform) (s : Session) (ping : PingCrate) where
  abbrev asked_for : (Text ⊎ Unit {0}) × List ℕ
  asked_for = ping.build_request (10 ∷ 8 ∷ 0 ∷ 2 ∷ [])

  -- How a round or the thread ends, and what it has left unsent.
  abbrev pub Pings : {A : Type 0} → World → Outcome Error A × World → Type 0
  Pings {A} w r =
      (unsent p s.inner r.1.trace ≡ unsent p s.inner w.trace)
      ⊎ ((e : Text) × (a : ℕ) × (asked_for.0 ≡ inl e)
          × ((done : A) → r.0 ≢ ok done)
          × (unsent p s.inner r.1.trace ≡ a ∷ unsent p s.inner w.trace))

  -- A packet that was allocated, and what is done with it.
  allocated-Pings :
      (packet : Packet) (w : World) (xs : List ℕ)
      → packet.kind ≡ send_packet_pending
      → unsent p s.inner w.trace ≡ packet.address ∷ xs
      → let r = filled p s ping packet w in
        (unsent p s.inner r.1.trace ≡ xs)
        ⊎ ((e : Text) × (asked_for.0 ≡ inl e)
            × (r.0 ≢ ok tt)
            × (unsent p s.inner r.1.trace ≡ packet.address ∷ xs))
  unfolding filled unsent
  allocated-Pings packet w xs kind there = elim (Sum-cases asked_for.0) [
    | inr (tt, b) ↦ inl (ground (arith, b, kind, there, erase-cons_self packet.address xs))
    | inl (e, b) ↦ inr (e, b, ground (arith, b), ground (arith, b, kind, there))
  ]

  allocate-pending :
      (packet : Packet) (w : World)
      → (allocate p s 28 w).0 ≡ ok packet
      → packet.kind ≡ send_packet_pending
  unfolding allocate
  allocate-pending packet w e = ground arith

  allocate-err :
      (e : Error) (w : World)
      → (allocate p s 28 w).0 ≡ err e
      → unsent p s.inner (allocate p s 28 w).1.trace ≡ unsent p s.inner w.trace
  unfolding allocate unsent
  allocate-err e w h = ground (arith, h)

  allocate-calm : (w : World) → (allocate p s 28 w).0 ≢ panic
  unfolding allocate
  allocate-calm w = ground arith

  ping_round-Pings : (w : World) → Pings w (ping_round p s ping w)
  unfolding ping_round
  ping_round-Pings w = elim (run-cases (allocate p s 28 w)) [
    | inl (packet, w₁, r) ↦
        let got = unsent-send_packet_of p s w 28 packet (ap (λ x. x.0) r) in
        let pending = allocate-pending packet w (ap (λ x. x.0) r) in
        rw r
          (elim (allocated-Pings packet w₁ (unsent p s.inner w.trace) pending
            (ap (λ x. unsent p s.inner x.1.trace) (sym r) ∙ got.0)) [
              | inl same ↦ inl same
              | inr (e, b, failed, more) ↦ inr (e, packet.address, b, λ done. failed, more)
            ])
    | inr (inl (e, w₁, r)) ↦
        rw r
          (inl (ap (λ x. unsent p s.inner x.1.trace) (sym r) ∙ allocate-err e w (ap (λ x. x.0) r)))
    | inr (inr (w₁, r)) ↦ absurd (allocate-calm w (ap (λ x. x.0) r))
  ]

  -- A run goes on after a round only if the round left nothing.
  went_on :
      {A : Type 0} (w w₁ : World) (r : Outcome Error (Unit {0}) × World)
      (r' : Outcome Error A × World)
      → r ≡ (ok tt, w₁)
      → Pings w r
      → Pings w₁ r'
      → Pings w r'
  went_on w w₁ r r' run (inr (e, a, b, failed, more)) then = absurd (failed tt (ap (λ x. x.0) run))
  went_on w w₁ r r' run (inl same) then =
      let still : unsent p s.inner w₁.trace ≡ unsent p s.inner w.trace =
        ap (λ x. unsent p s.inner x.1.trace) (sym run) ∙ same in
      elim then [
        | inl same' ↦ inl (same' ∙ still)
        | inr (e, a, b, failed, more) ↦ inr (e, a, b, failed, more ∙ ap (λ xs. a ∷ xs) still)
      ]

  -- An error or a panic of a round is that of the thread.
  stopped :
      {A : Type 0} (w w₁ : World) (r : Outcome Error (Unit {0}) × World) (o : Outcome Error A)
      → r.1 ≡ w₁
      → ((done : A) → o ≢ ok done)
      → Pings w r
      → Pings w (o, w₁)
  stopped w w₁ r o run bad (inl same) = inl (ap (λ x. unsent p s.inner x.trace) (sym run) ∙ same)
  stopped w w₁ r o run bad (inr (e, a, b, failed, more)) =
      inr (e, a, b, bad, ap (λ x. unsent p s.inner x.trace) (sym run) ∙ more)

  -- However long the sending thread of examples/wireshark.rs runs and however it ends, the packets that
  -- are allocated and unsent are those from before, with one exception: where the builder of the request
  -- refuses, the packet of that round is left unsent, and the thread has ended in an error or a panic.
  pub ping_packets-Pings :
      (running : Trace → Bool) (fuel : ℕ) (w : World)
      → Pings w (ping_packets p s running ping fuel w)
  unfolding ping_packets
  ping_packets-Pings running zero w = inl refl
  ping_packets-Pings running (suc fuel) w = elim (Bool-cases (running w.trace)) [
    | inr off ↦ rw off (inl refl)
    | inl on ↦ elim (run-cases (ping_round p s ping w)) [
      | inl (tt, w₁, r) ↦
          rw (on, r)
            (went_on w w₁ (ping_round p s ping w) (ping_packets p s running ping fuel w₁) r
              (ping_round-Pings w) (ping_packets-Pings running fuel w₁))
      | inr (inl (e, w₁, r)) ↦
          rw (on, r)
            (stopped w w₁ (ping_round p s ping w) (err e) (ap (λ x. x.1) r)
              (λ done h. ground (arith, h)) (ping_round-Pings w))
      | inr (inr (w₁, r)) ↦
          rw (on, r)
            (stopped w w₁ (ping_round p s ping w) panic (ap (λ x. x.1) r)
              (λ done h. ground (arith, h)) (ping_round-Pings w))
    ]
  ]
