-- ===== src/Session/Calls/Agreement.antt =====
-- Receiving through a packet (`try_receive`) and receiving into a buffer (`try_recv`), and the read
-- event: src/session.rs.

use wintun_bindings.Base.{
  ℕ, List, ◌≡◌, arith, none, some, if◌then◌else◌, ltb, length, text, ◌++◌, drop,
}
use wintun_bindings.Failure.{IoError, into_io, from_kind, would_block, message, invalid_input}
use wintun_bindings.Session.Calls.{try_recv, read_wait_event, try_receive}
use wintun_bindings.Session.Packet.{bytes, drop_packet, Session}
use wintun_bindings.System.{Platform, World, M, ◌>>=◌, map_err, fail, ◌>>◌, pure}

-- `try_recv` written with the packets of `try_receive`: take the packet, copy its bytes if they
-- fit, drop the packet.
pub recv_by_packet : Platform → Session → List ℕ → M IoError (ℕ × List ℕ)
unfolding bytes drop_packet
recv_by_packet p s buf = do
  r ← map_err into_io (try_receive p s)
  elim r [
    | none ↦ fail (from_kind would_block)
    | some packet ↦ do
      content ← bytes p packet
      drop_packet p packet
      if ltb (length buf) packet.size
          then fail (message invalid_input (text "destination buffer too small"))
          else pure (packet.size, content ++ drop packet.size buf)
  ]

module _ (p : Platform) (s : Session) (w : World) where
  -- The two ways to receive are one: same result, same calls in the same order.
  pub try_recv-eq-recv_by_packet : (buf : List ℕ) → try_recv p s buf w ≡ recv_by_packet p s buf w
  unfolding try_recv recv_by_packet try_receive into_io
  try_recv-eq-recv_by_packet buf = ground arith

  -- The read event is asked for at most once: after one call, further calls make no call of the
  -- driver, change nothing, and answer the same.
  pub read_wait_event_twice : read_wait_event p s (read_wait_event p s w).1 ≡ read_wait_event p s w
  unfolding read_wait_event
  read_wait_event_twice = ground arith
