-- ===== src/Programs/Capture/Balanced.antt =====
-- The packets that the reader of examples/wireshark.rs takes are given back.
use wintun_bindings.Base.{
  none, some, ℕ, refl, Bool, ◌≢◌, panic, List, ◌≡◌, suc, Bool-cases, ◌∷◌, arith, inr, inl, ap, sym,
  ◌∙◌, zero, ◌+◌, true, ◌%◌, ok, ◌^◌, err,
}
use wintun_bindings.Failure.{Error}
use wintun_bindings.Programs.Basic.Reading.{
  held-receive_blocking-err, held-receive_blocking-none, receive_blocking-packet,
}
use wintun_bindings.Programs.Capture.{Pcap, capture, write_down}
use wintun_bindings.Session.Loops.{receive_blocking}
use wintun_bindings.Session.Loops.Endings.{held-receive_blocking}
use wintun_bindings.Session.Packet.{Packet, Session, receive_packet_kind}
use wintun_bindings.Session.Ring.{held, erase-cons_self}
use wintun_bindings.System.{Platform, Trace, World, run-cases}

module _ (p : Platform) (running : Trace → Bool) (s : Session) (pcap : Pcap) where
  held-write_down :
      (packet : Packet) (w : World) (rest : List ℕ)
      → packet.kind ≡ receive_packet_kind
      → packet.session ≡ s
      → held p s.inner w.trace ≡ packet.address ∷ rest
      → held p s.inner (write_down p running s pcap packet w).1.trace ≡ rest
  unfolding write_down held
  held-write_down packet w rest k o h =
      ground (arith, k, ap (λ x. x.inner) o, h, erase-cons_self packet.address rest)

  pub capture-goes_on :
      (wait fuel packet_count : ℕ) (w w₁ w₂ : World) (packet : Packet)
      → running w.trace ≡ true
      → receive_blocking p s wait w ≡ (ok (some packet), w₁)
      → write_down p running s pcap packet w₁ ≡ (ok tt, w₂)
      → capture p running s pcap wait (suc fuel) packet_count w
        ≡ capture p running s pcap wait fuel ((packet_count + 1) % 2 ^ 32) w₂
  unfolding capture
  capture-goes_on wait fuel packet_count w w₁ w₂ packet on r d = rw (on, r, d) refl

  pub capture-fails :
      (wait fuel packet_count : ℕ) (w w₁ w₂ : World) (packet : Packet) (e : Error)
      → running w.trace ≡ true
      → receive_blocking p s wait w ≡ (ok (some packet), w₁)
      → write_down p running s pcap packet w₁ ≡ (err e, w₂)
      → capture p running s pcap wait (suc fuel) packet_count w ≡ (err e, w₂)
  unfolding capture
  capture-fails wait fuel packet_count w w₁ w₂ packet e on r d = rw (on, r, d) refl

  pub capture-panics :
      (wait fuel packet_count : ℕ) (w w₁ w₂ : World) (packet : Packet)
      → running w.trace ≡ true
      → receive_blocking p s wait w ≡ (ok (some packet), w₁)
      → write_down p running s pcap packet w₁ ≡ (panic, w₂)
      → capture p running s pcap wait (suc fuel) packet_count w ≡ (panic, w₂)
  unfolding capture
  capture-panics wait fuel packet_count w w₁ w₂ packet on r d = rw (on, r, d) refl

  -- However long the reader of examples/wireshark.rs runs and however it ends, short of a panic, the
  -- session has handed out afterwards what it had handed out before: each packet read is given back,
  -- also the one that cannot be written to the file, which ends the reader.
  pub held-capture :
      (wait fuel packet_count : ℕ) (w : World)
      → (capture p running s pcap wait fuel packet_count w).0 ≢ panic
      → held p s.inner (capture p running s pcap wait fuel packet_count w).1.trace
        ≡ held p s.inner w.trace
  unfolding capture
  held-capture wait zero packet_count w calm = refl
  held-capture wait (suc fuel) packet_count w calm = elim (Bool-cases (running w.trace)) [
    | inr off ↦ rw off refl
    | inl on ↦ elim (run-cases (receive_blocking p s wait w)) [
      | inr (inl (e, w₁, r)) ↦ ground (arith, on, r, held-receive_blocking-err p s wait e w)
      | inr (inr (w₁, r)) ↦ absurd (ground (arith, on, r, calm))
      | inl (none, w₁, r) ↦ ground (arith, on, r, held-receive_blocking-none p s wait w)
      | inl (some packet, w₁, r) ↦
          let (k, o) = receive_blocking-packet p s wait packet w (ap (λ x. x.0) r) in
          let got : held p s.inner w₁.trace ≡ packet.address ∷ held p s.inner w.trace =
            ap (λ x. held p s.inner x.1.trace) (sym r)
            ∙ held-receive_blocking p s wait w packet (ap (λ x. x.0) r) in
          let gone = held-write_down packet w₁ (held p s.inner w.trace) k o got in
          elim (run-cases (write_down p running s pcap packet w₁)) [
            | inl (tt, w₂, d) ↦
                let next = capture-goes_on wait fuel packet_count w w₁ w₂ packet on r d in
                ap (λ x. held p s.inner x.1.trace) next
                ∙ held-capture wait fuel ((packet_count + 1) % 2 ^ 32) w₂
                    (λ e. calm (ap (λ x. x.0) next ∙ e))
                ∙ (ap (λ x. held p s.inner x.1.trace) (sym d) ∙ gone)
            | inr (inl (e, w₂, d)) ↦
                let ends = capture-fails wait fuel packet_count w w₁ w₂ packet e on r d in
                ap (λ x. held p s.inner x.1.trace) ends
                ∙ (ap (λ x. held p s.inner x.1.trace) (sym d) ∙ gone)
            | inr (inr (w₂, d)) ↦
                absurd (
                  calm
                    (ap (λ x. x.0) (capture-panics wait fuel packet_count w w₁ w₂ packet on r d)))
          ]
    ]
  ]
