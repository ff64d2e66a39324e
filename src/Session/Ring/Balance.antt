-- ===== src/Session/Ring/Balance.antt =====
-- The calls of a session against the account of its ring: src/session.rs and src/packet.rs.
use wintun_bindings.Base.{ℕ, List, ◌∷◌, ◌≡◌, some, arith, ok, panic, ◌≢◌, ◌%◌, ◌^◌, length, none}
use wintun_bindings.Failure.{Error}
use wintun_bindings.Session.Calls.{wait_read, try_receive, try_recv, send, allocate, send_packet_of}
use wintun_bindings.Session.Packet.{Session, Packet, receive_packet_kind, drop_packet}
use wintun_bindings.Session.Ring.{held, unsent, erase-cons_self}
use wintun_bindings.System.{World, Platform}

module _ (p : Platform) (s : Session) (h : ℕ) (w : World) where
  -- `try_recv` hands back what it takes: unless it panics, no session holds a packet that it did not
  -- hold before, whether the call succeeds, finds no packet, or refuses a packet too long for `buf`.
  pub held-try_recv :
      (buf : List ℕ)
      → (try_recv p s buf w).0 ≢ panic
      → held p h (try_recv p s buf w).1.trace ≡ held p h w.trace
  unfolding try_recv held
  held-try_recv buf ne =
      ground (arith, erase-cons_self (p.receive_packet w.trace s.inner).address (held p h w.trace))

  pub held-wait_read : held p h (wait_read p s w).1.trace ≡ held p h w.trace
  unfolding wait_read held
  held-wait_read = ground arith

  -- Dropping a packet that is the newest held one releases it, and releases nothing else.
  pub held-drop_packet :
      (packet : Packet) (rest : List ℕ)
      → packet.kind ≡ receive_packet_kind
      → held p packet.session.inner w.trace ≡ packet.address ∷ rest
      → held p packet.session.inner (drop_packet p {E = Error} packet w).1.trace ≡ rest
  unfolding drop_packet held
  held-drop_packet packet rest k e =
      rw (k, drop_packet) (ground (arith, erase-cons_self packet.address rest))

module _ (p : Platform) (s : Session) (w : World) where
  -- A packet that `try_receive` returns is a received packet of the session with an address that is
  -- not null, and this address is held in addition from then on.
  pub held-try_receive :
      (packet : Packet)
      → (try_receive p s w).0 ≡ ok (some packet)
      → (held p s.inner (try_receive p s w).1.trace ≡ packet.address ∷ held p s.inner w.trace)
        × (packet.kind ≡ receive_packet_kind)
        × (packet.session ≡ s)
        × (packet.address ≢ 0)
  unfolding try_receive held
  held-try_receive packet e = ground arith

  pub held-try_receive-none :
      (try_receive p s w).0 ≡ ok none
      → held p s.inner (try_receive p s w).1.trace ≡ held p s.inner w.trace
  unfolding try_receive held
  held-try_receive-none e = ground arith

  -- If the driver gives an address, `send` leaves the unsent packets as they were.
  pub unsent-send :
      (buf : List ℕ)
      → p.allocate_send_packet w.trace s.inner (length buf % 2 ^ 32) ≢ 0
      → unsent p s.inner (send p s buf w).1.trace ≡ unsent p s.inner w.trace
  unfolding send unsent
  unsent-send buf ne = ground (
    arith,
    erase-cons_self (p.allocate_send_packet w.trace s.inner (length buf % 2 ^ 32))
        (unsent p s.inner w.trace),
  )

  -- A packet that `allocate_send_packet` returns is unsent in addition; if `send_packet` sends it next,
  -- which succeeds, the unsent packets are those from before.
  pub unsent-send_packet_of :
      (size : ℕ) (packet : Packet)
      → (allocate p s size w).0 ≡ ok packet
      → let w' = (allocate p s size w).1 in
        (unsent p s.inner w'.trace ≡ packet.address ∷ unsent p s.inner w.trace)
        × (unsent p s.inner (send_packet_of p {E = Error} s packet w').1.trace
            ≡ unsent p s.inner w.trace)
        × ((send_packet_of p {E = Error} s packet w').0 ≡ ok tt)
  unfolding allocate send_packet_of unsent
  unsent-send_packet_of size packet e =
      ground (arith, erase-cons_self packet.address (unsent p s.inner w.trace))
