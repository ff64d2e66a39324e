-- ===== src/Programs/Readers.antt =====
-- The readers of the programs under examples give back what they take.
use wintun_bindings.AsyncSession.Defs.{ReadState, Executor}
use wintun_bindings.Base.{none, some, ℕ, Bool, ◌≢◌, panic, ◌≡◌, inl, ap, sym, ◌∙◌, inr}
use wintun_bindings.Programs.Async.{Futures, read_async, read_round_async}
use wintun_bindings.Programs.Async.Polling.{IsPolling}
use wintun_bindings.Programs.Async.Reading.{held-read_async, held-read_round_async}
use wintun_bindings.Programs.Basic.{read_packets}
use wintun_bindings.Programs.Basic.Reading.{
  held-read_packets, held-receive_blocking-none, held-receive_blocking-err, receive_blocking-packet,
  held-drop_received,
}
use wintun_bindings.Programs.Capture.{Pcap, capture}
use wintun_bindings.Programs.Capture.Balanced.{held-capture}
use wintun_bindings.Programs.Echo.{PacketCrate, RandomApi, read_round}
use wintun_bindings.Programs.Server.Reading.{
  read_round-none, read_round_err, read_round_panic, read_round_runs,
}
use wintun_bindings.Session.Loops.{receive_blocking}
use wintun_bindings.Session.Loops.Endings.{held-receive_blocking}
use wintun_bindings.Session.Packet.{Session}
use wintun_bindings.Session.Ring.{held}
use wintun_bindings.System.{Platform, Trace, World, run-cases}

module _ (p : Platform) (x : Executor) (s : Session) (running : Trace → Bool) where
  held-read_round :
      (random : RandomApi) (c : PacketCrate) (fuel : ℕ) (w : World)
      → (read_round p random c s fuel w).0 ≢ panic
      → held p s.inner (read_round p random c s fuel w).1.trace ≡ held p s.inner w.trace
  held-read_round random c fuel w calm = elim (run-cases (receive_blocking p s fuel w)) [
    | inl (none, w₁, r) ↦ rw (read_round-none p random c s fuel w w₁ r) (
        ap (λ y. held p s.inner y.1.trace) (sym r)
        ∙ held-receive_blocking-none p s fuel w (ap (λ y. y.0) r))
    | inr (inl (e, w₁, r)) ↦ rw (read_round_err p random c s fuel w w₁ e r) (
        ap (λ y. held p s.inner y.1.trace) (sym r)
        ∙ held-receive_blocking-err p s fuel e w (ap (λ y. y.0) r))
    | inr (inr (w₁, r)) ↦ absurd (calm (ap (λ y. y.0) (read_round_panic p random c s fuel w w₁ r)))
    | inl (some packet, w₁, r) ↦
        let (k, o) = receive_blocking-packet p s fuel packet w (ap (λ y. y.0) r) in
        rw (read_round_runs p random c s fuel w w₁ packet r)
          (held-drop_received p s packet w₁ (held p s.inner w.trace) k o (
            ap (λ y. held p s.inner y.1.trace) (sym r)
            ∙ held-receive_blocking p s fuel w packet (ap (λ y. y.0) r))).0
  ]

  -- However long the readers of examples/basic.rs, examples/wireshark.rs and examples/basic-async.rs run
  -- and however they end, short of a panic, the session has handed out afterwards what it had handed out
  -- before, and so it has after each round of the readers of examples/udp-echo.rs and
  -- examples/udp-echo-async.rs, however that round ends: each packet is given back, also one that cannot
  -- be written to the capture file, and one that is too long for the buffer of an asynchronous read. For
  -- the asynchronous ones the condition is that the crate futures reads by polling the session.
  pub held-readers :
      (f : Futures) (pcap : Pcap) (random : RandomApi) (c : PacketCrate) (state : ReadState)
      (wait fuel packet_count : ℕ) (w : World)
      → IsPolling p x s f
      → (read_packets p running s wait fuel w).0 ≢ panic
      → (capture p running s pcap wait fuel packet_count w).0 ≢ panic
      → (read_async f running state fuel w).0 ≢ panic
      → (read_round p random c s wait w).0 ≢ panic
      → (read_round_async f c state w).0 ≢ panic
      → let before = held p s.inner w.trace in
        (held p s.inner (read_packets p running s wait fuel w).1.trace ≡ before)
        × (held p s.inner (capture p running s pcap wait fuel packet_count w).1.trace ≡ before)
        × (held p s.inner (read_async f running state fuel w).1.trace ≡ before)
        × (held p s.inner (read_round p random c s wait w).1.trace ≡ before)
        × (held p s.inner (read_round_async f c state w).1.trace ≡ before)
  held-readers f pcap random c state wait fuel packet_count w polls calm₁ calm₂ calm₃ calm₄ calm₅ =
      (
        held-read_packets p running s wait fuel w calm₁,
        held-capture p running s pcap wait fuel packet_count w calm₂,
        held-read_async p x s f polls running state fuel w calm₃,
        held-read_round random c wait w calm₄,
        held-read_round_async p x s f polls c state w calm₅,
      )
