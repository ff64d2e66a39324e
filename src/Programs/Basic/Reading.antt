-- ===== src/Programs/Basic/Reading.antt =====
-- The packets that the reader of examples/basic.rs takes are given back.
use wintun_bindings.Base.{
  ℕ, zero, suc, Bool, true, ◌≡◌, none, some, ok, err, inl, inr, arith, refl, ◌≢◌, panic, Bool-cases,
  List, ◌∷◌, ap, sym, ◌∙◌,
}
use wintun_bindings.Failure.{Error}
use wintun_bindings.Programs.Basic.{read_packets}
use wintun_bindings.Session.Calls.{try_receive, wait_read}
use wintun_bindings.Session.Loops.{receive_blocking, receive_tries}
use wintun_bindings.Session.Loops.Endings.{held-receive_blocking, held-receive_tries-none}
use wintun_bindings.Session.Packet.{Session, drop_packet, Packet, receive_packet_kind}
use wintun_bindings.Session.Ring.{held, erase-cons_self}
use wintun_bindings.Session.Ring.Balance.{held-try_receive-none, held-try_receive, held-wait_read}
use wintun_bindings.System.{World, Trace, Platform, run-cases}

module _ (p : Platform) (s : Session) where
  -- What is handed out by a call that gives no packet.
  held-try_receive-err :
      (e : Error) (w : World)
      → (try_receive p s w).0 ≡ err e
      → held p s.inner (try_receive p s w).1.trace ≡ held p s.inner w.trace
  unfolding try_receive held
  held-try_receive-err e w h = ground arith

  held-receive_tries-err :
      (n : ℕ) (e : Error) (w : World)
      → (receive_tries p s n w).0 ≡ err e
      → held p s.inner (receive_tries p s n w).1.trace ≡ held p s.inner w.trace
  unfolding receive_tries
  held-receive_tries-err zero e w h = ground arith
  held-receive_tries-err (suc n) e w h = ground (
    arith,
    held-try_receive-err e w,
    held-try_receive-none p s w,
    held-receive_tries-err n e (try_receive p s w).1,
  )

  pub held-receive_blocking-err :
      (fuel : ℕ) (e : Error) (w : World)
      → (receive_blocking p s fuel w).0 ≡ err e
      → held p s.inner (receive_blocking p s fuel w).1.trace ≡ held p s.inner w.trace
  unfolding receive_blocking
  held-receive_blocking-err zero e w h = ground arith
  held-receive_blocking-err (suc fuel) e w h = ground (
    arith,
    held-receive_tries-err 5 e w,
    held-receive_tries-none p s 5 w,
    held-wait_read p s s.inner (receive_tries p s 5 w).1,
    held-receive_blocking-err fuel e (wait_read p s (receive_tries p s 5 w).1).1,
  )

  pub held-receive_blocking-none :
      (fuel : ℕ) (w : World)
      → (receive_blocking p s fuel w).0 ≡ ok none
      → held p s.inner (receive_blocking p s fuel w).1.trace ≡ held p s.inner w.trace
  unfolding receive_blocking
  held-receive_blocking-none zero w h = refl
  held-receive_blocking-none (suc fuel) w h = ground (
    arith,
    held-receive_tries-none p s 5 w,
    held-wait_read p s s.inner (receive_tries p s 5 w).1,
    held-receive_blocking-none fuel (wait_read p s (receive_tries p s 5 w).1).1,
  )

  -- The packet is one of the session.
  receive_tries-packet :
      (n : ℕ) (packet : Packet) (w : World)
      → (receive_tries p s n w).0 ≡ ok (some packet)
      → (packet.kind ≡ receive_packet_kind) × (packet.session ≡ s)
  unfolding receive_tries
  receive_tries-packet zero packet w h = ground arith
  receive_tries-packet (suc n) packet w h =
      ground
        (arith, held-try_receive p s w packet, receive_tries-packet n packet (try_receive p s w).1)

  pub receive_blocking-packet :
      (fuel : ℕ) (packet : Packet) (w : World)
      → (receive_blocking p s fuel w).0 ≡ ok (some packet)
      → (packet.kind ≡ receive_packet_kind) × (packet.session ≡ s)
  unfolding receive_blocking
  receive_blocking-packet zero packet w h = ground arith
  receive_blocking-packet (suc fuel) packet w h = ground (
    arith,
    receive_tries-packet 5 packet w,
    receive_blocking-packet fuel packet (wait_read p s (receive_tries p s 5 w).1).1,
  )

  pub held-drop_received :
      (packet : Packet) (w : World) (rest : List ℕ)
      → packet.kind ≡ receive_packet_kind
      → packet.session ≡ s
      → held p s.inner w.trace ≡ packet.address ∷ rest
      → (held p s.inner (drop_packet p {E = Error} packet w).1.trace ≡ rest)
        × ((drop_packet p {E = Error} packet w).0 ≡ ok tt)
  unfolding drop_packet held
  held-drop_received packet w rest k o h =
      ground (arith, k, ap (λ x. x.inner) o, h, erase-cons_self packet.address rest)

module _ (p : Platform) (running : Trace → Bool) (s : Session) where
  pub read_packets-goes_on :
      (wait fuel : ℕ) (w w₁ : World) (packet : Packet)
      → running w.trace ≡ true
      → receive_blocking p s wait w ≡ (ok (some packet), w₁)
      → (drop_packet p {E = Error} packet w₁).0 ≡ ok tt
      → read_packets p running s wait (suc fuel) w
        ≡ read_packets p running s wait fuel (drop_packet p {E = Error} packet w₁).1
  unfolding read_packets
  read_packets-goes_on wait fuel w w₁ packet on r done = ground (arith, on, r, done)

  -- However long the reader of examples/basic.rs runs and however it ends, short of a panic, the
  -- session has handed out afterwards what it had handed out before: each packet read is given back.
  pub held-read_packets :
      (wait fuel : ℕ) (w : World)
      → (read_packets p running s wait fuel w).0 ≢ panic
      → held p s.inner (read_packets p running s wait fuel w).1.trace ≡ held p s.inner w.trace
  unfolding read_packets
  held-read_packets wait zero w calm = refl
  held-read_packets wait (suc fuel) w calm = elim (Bool-cases (running w.trace)) [
    | inr off ↦ rw off refl
    | inl on ↦ elim (run-cases (receive_blocking p s wait w)) [
      | inr (inl (e, w₁, r)) ↦ ground (arith, on, r, held-receive_blocking-err p s wait e w)
      | inr (inr (w₁, r)) ↦ absurd (ground (arith, on, r, calm))
      | inl (none, w₁, r) ↦ ground (arith, on, r, held-receive_blocking-none p s wait w)
      | inl (some packet, w₁, r) ↦
          let (k, o) = receive_blocking-packet p s wait packet w (ap (λ x. x.0) r) in
          let got : held p s.inner w₁.trace ≡ packet.address ∷ held p s.inner w.trace =
            ap (λ x. held p s.inner x.1.trace) (sym r)
            ∙ held-receive_blocking p s wait w packet (ap (λ x. x.0) r) in
          let (gone, done) = held-drop_received p s packet w₁ (held p s.inner w.trace) k o got in
          let next = read_packets-goes_on wait fuel w w₁ packet on r done in
          ap (λ x. held p s.inner x.1.trace) next
          ∙ held-read_packets wait fuel (drop_packet p {E = Error} packet w₁).1
              (λ e. calm (ap (λ x. x.0) next ∙ e))
          ∙ gone
    ]
  ]
