-- ===== src/Session/Lifetime/Usage.antt =====
-- Single calls of src/session.rs and src/packet.rs on a session that is open.
use wintun_bindings.Base.{ℕ, ◌≡◌, List, arith}
use wintun_bindings.Failure.{Error}
use wintun_bindings.Session.Calls.{
  try_receive, try_recv, drop_session, send_packet_of, allocate, wait_read, send, shutdown,
}
use wintun_bindings.Session.Lifetime.{ends, misuses}
use wintun_bindings.Session.Packet.{Session, drop_packet, Packet}
use wintun_bindings.System.{Platform, World}

module _ (p : Platform) (s : Session) (w : World) (alive : ends s.inner w.trace ≡ 0) where
  -- A call on an open session leaves it open, and is no misuse of it.
  abbrev pub Keeps : World → Type 0
  Keeps w' = (ends s.inner w'.trace ≡ 0) × (misuses s.inner w'.trace ≡ misuses s.inner w.trace)

  pub try_receive-Keeps : Keeps (try_receive p s w).1
  unfolding try_receive ends misuses
  try_receive-Keeps = ground arith

  pub try_recv-Keeps : (buf : List ℕ) → Keeps (try_recv p s buf w).1
  unfolding try_recv ends misuses
  try_recv-Keeps buf = ground arith

  pub wait_read-Keeps : Keeps (wait_read p s w).1
  unfolding wait_read ends misuses
  wait_read-Keeps = ground arith

  pub shutdown-Keeps : Keeps (shutdown p s w).1
  unfolding shutdown ends misuses
  shutdown-Keeps = ground arith

  pub send-Keeps : (buf : List ℕ) → Keeps (send p s buf w).1
  unfolding send ends misuses
  send-Keeps buf = ground arith

  pub allocate-Keeps : (size : ℕ) → Keeps (allocate p s size w).1
  unfolding allocate ends misuses
  allocate-Keeps size = ground arith

  pub send_packet_of-Keeps : (packet : Packet) → Keeps (send_packet_of p {E = Error} s packet w).1
  unfolding send_packet_of ends misuses
  send_packet_of-Keeps packet = ground arith

  pub drop_packet-Keeps : (packet : Packet) → Keeps (drop_packet p {E = Error} packet w).1
  unfolding drop_packet ends misuses
  drop_packet-Keeps packet = ground arith

  pub drop_session-ends :
      (ends s.inner (drop_session p {E = Error} s w).1.trace ≡ 1)
      × (misuses s.inner (drop_session p {E = Error} s w).1.trace ≡ misuses s.inner w.trace)
  unfolding drop_session ends misuses
  drop_session-ends = ground arith
