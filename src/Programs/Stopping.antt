-- ===== src/Programs/Stopping.antt =====
-- The threads that read, of examples/basic.rs and examples/wireshark.rs, end when `main` stops them.
use wintun_bindings.Base.{
  ℕ, zero, suc, Bool, ◌≤◌, length, ◌≡◌, ◌+◌, ◌≢◌, false, ok, arith, none, Bool-cases, inr, inl, ap,
  some, sym, ◌∙◌, ◌%◌, ◌^◌,
}
use wintun_bindings.Failure.{Error}
use wintun_bindings.Programs.Basic.{read_packets}
use wintun_bindings.Programs.Basic.Reading.{receive_blocking-packet, read_packets-goes_on}
use wintun_bindings.Programs.Capture.{write_down, Pcap, capture}
use wintun_bindings.Programs.Capture.Balanced.{capture-fails, capture-panics, capture-goes_on}
use wintun_bindings.Session.Loops.{receive_blocking}
use wintun_bindings.Session.Loops.Endings.{
  IsShutFrom, receive_blocking_ends, length-receive_blocking,
}
use wintun_bindings.Session.Packet.{Session, drop_packet, Packet, receive_packet_kind}
use wintun_bindings.System.{Trace, Platform, World, run-cases}

-- From `k` calls on, the static `RUNNING` is cleared.
abbrev pub IsClearedFrom : ℕ → (Trace → Bool) → Type 0
IsClearedFrom k running = (t : Trace) → k ≤ length t → running t ≡ false

module _ (p : Platform) (running : Trace → Bool) (s : Session) (k : ℕ) (shut : IsShutFrom p s k)
    (cleared : IsClearedFrom k running) where
  length-drop_packet :
      (packet : Packet) (w : World)
      → packet.kind ≡ receive_packet_kind
      → length (drop_packet p {E = Error} packet w).1.trace ≡ length w.trace + 1
  unfolding drop_packet
  length-drop_packet packet w kind = ground (arith, kind)

  length-write_down :
      (pcap : Pcap) (packet : Packet) (w : World)
      → packet.kind ≡ receive_packet_kind
      → length (write_down p running s pcap packet w).1.trace ≡ length w.trace + 1
  unfolding write_down drop_packet
  length-write_down pcap packet w kind = ground (arith, kind)

  -- A packet is there, and the thread has made a call more when it is dropped.
  read-later :
      (wait : ℕ) (w w₁ : World) (packet : Packet)
      → receive_blocking p s wait w ≡ (ok (some packet), w₁)
      → (packet.kind ≡ receive_packet_kind) × (length w.trace ≤ length w₁.trace)
  read-later wait w w₁ packet r = (
    (receive_blocking-packet p s wait packet w (ap (λ x. x.0) r)).0,
    (let longer : length w.trace ≤ length (receive_blocking p s wait w).1.trace =
          length-receive_blocking p s wait w in
        ground (arith, r, longer)),
  )

  drop_packet-ok :
      (packet : Packet) (w : World)
      → packet.kind ≡ receive_packet_kind
      → (drop_packet p {E = Error} packet w).0 ≡ ok tt
  unfolding drop_packet
  drop_packet-ok packet w kind = ground (arith, kind)

  read_packets_end :
      (wait fuel : ℕ) (w : World)
      → k ≤ wait + length w.trace
      → k ≤ fuel + length w.trace
      → (read_packets p running s (suc wait) (suc fuel) w).0 ≢ ok none
  unfolding read_packets
  read_packets_end wait zero w h n = ground (arith, cleared w.trace (omega (arith, n)))
  read_packets_end wait (suc fuel) w h n = elim (Bool-cases (running w.trace)) [
    | inr off ↦ ground (arith, off)
    | inl on ↦ elim (run-cases (receive_blocking p s (suc wait) w)) [
      | inr (inl (e, w₁, r)) ↦ ground (arith, on, r)
      | inr (inr (w₁, r)) ↦ ground (arith, on, r)
      | inl (none, w₁, r) ↦ absurd (receive_blocking_ends p s k wait w shut h (ap (λ x. x.0) r))
      | inl (some packet, w₁, r) ↦
          let (kind, later) = read-later (suc wait) w w₁ packet r in
          let w₂ = (drop_packet p {E = Error} packet w₁).1 in
          let more : length w₂.trace ≡ length w₁.trace + 1 = length-drop_packet packet w₁ kind in
          let next =
            read_packets-goes_on p running s (suc wait) (suc fuel) w w₁ packet on r
              (drop_packet-ok packet w₁ kind) in
          λ e.
            read_packets_end wait fuel w₂ (omega (arith, h, later, more))
              (omega (arith, n, later, more)) (ap (λ x. x.0) (sym next) ∙ e)
    ]
  ]

  capture_ends :
      (pcap : Pcap) (wait fuel packet_count : ℕ) (w : World)
      → k ≤ wait + length w.trace
      → k ≤ fuel + length w.trace
      → (capture p running s pcap (suc wait) (suc fuel) packet_count w).0 ≢ ok none
  unfolding capture
  capture_ends pcap wait zero packet_count w h n =
      ground (arith, cleared w.trace (omega (arith, n)))
  capture_ends pcap wait (suc fuel) packet_count w h n = elim (Bool-cases (running w.trace)) [
    | inr off ↦ ground (arith, off)
    | inl on ↦ elim (run-cases (receive_blocking p s (suc wait) w)) [
      | inr (inl (e, w₁, r)) ↦ ground (arith, on, r)
      | inr (inr (w₁, r)) ↦ ground (arith, on, r)
      | inl (none, w₁, r) ↦ absurd (receive_blocking_ends p s k wait w shut h (ap (λ x. x.0) r))
      | inl (some packet, w₁, r) ↦ elim (run-cases (write_down p running s pcap packet w₁)) [
        | inr (inl (e, w₂, d)) ↦
            rw
              (capture-fails p running s pcap (suc wait) (suc fuel) packet_count w w₁ w₂ packet e on
                r d)
              (ground arith)
        | inr (inr (w₂, d)) ↦
            rw
              (capture-panics p running s pcap (suc wait) (suc fuel) packet_count w w₁ w₂ packet on
                r d)
              (ground arith)
        | inl (done, w₂, d) ↦
            let (kind, later) = read-later (suc wait) w w₁ packet r in
            let more : length w₂.trace ≡ length w₁.trace + 1 =
              ap (λ x. length x.1.trace) (sym d) ∙ length-write_down pcap packet w₁ kind in
            let next =
              capture-goes_on p running s pcap (suc wait) (suc fuel) packet_count w w₁ w₂ packet on
                r d in
            λ e.
              capture_ends pcap wait fuel ((packet_count + 1) % 2 ^ 32) w₂
                (omega (arith, h, later, more)) (omega (arith, n, later, more))
                (ap (λ x. x.0) (sym next) ∙ e)
      ]
    ]
  ]

  -- Once every wait from `k` calls on is answered by the shutdown event, and `RUNNING` is cleared from
  -- then on, the readers of examples/basic.rs and examples/wireshark.rs end, by a return, an error or a
  -- panic: rounds enough for the calls that lack to `k`, and one more, leave neither going on, in a read
  -- or between two.
  pub readers_end :
      (pcap : Pcap) (wait fuel packet_count : ℕ) (w : World)
      → k ≤ wait + length w.trace
      → k ≤ fuel + length w.trace
      → ((read_packets p running s (suc wait) (suc fuel) w).0 ≢ ok none)
        × ((capture p running s pcap (suc wait) (suc fuel) packet_count w).0 ≢ ok none)
  readers_end pcap wait fuel packet_count w h n =
      (read_packets_end wait fuel w h n, capture_ends pcap wait fuel packet_count w h n)
