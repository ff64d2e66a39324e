-- ===== src/Session/Lifetime.antt =====
-- The shared ownership of a session: `Arc<Session>` in src/session.rs, src/packet.rs and
-- src/async_session.rs. A session is dropped when the last of its owners is, which are the handles
-- that the program holds and the packets that are alive.
pub mod Usage
pub mod Account
pub mod Invariant
pub mod Ownership
use wintun_bindings.Base.{
  ℕ, ◌∷◌, Bool, List, if◌then◌else◌, ◌<◌, ◌&&◌, ◌+◌, ◌==◌, length, ltb, ◌≡◌, ok, some, none, false,
  ◌≢◌, panic, ◌++◌, [], err,
}
use wintun_bindings.Failure.{Error}
use wintun_bindings.Session.Calls.{
  drop_session, try_receive, try_recv, wait_read, send, allocate, send_packet_of, shutdown,
}
use wintun_bindings.Session.Packet.{Session, Packet, send_packet_pending, drop_packet}
use wintun_bindings.System.{
  Platform, Call, Trace, World, end_session, get_read_wait_event, receive_packet,
  release_receive_packet, allocate_send_packet, send_packet,
}

-- `arcs` counts the handles that the program holds itself, clones included.
pub record Owned : Type 0 where
  pub world : World
  pub arcs : ℕ
  pub packets : List Packet

-- Whether a call goes to the driver with the handle `h`.
unfoldable pub uses : ℕ → Call → Bool
uses h (end_session k) = k == h
uses h (get_read_wait_event k) = k == h
uses h (receive_packet k) = k == h
uses h (release_receive_packet k a) = k == h
uses h (allocate_send_packet k n) = k == h
uses h (send_packet k a) = k == h
uses h _ = false

-- How often session `h` was ended.
unfoldable pub ends : ℕ → Trace → ℕ
ends h [] = 0
ends h (end_session k ∷ t) = if k == h then ends h t + 1 else ends h t
ends h (c ∷ t) = ends h t

-- How many calls went to session `h` after its end.
unfoldable pub misuses : ℕ → Trace → ℕ
unfolding uses ends
misuses h [] = 0
misuses h (c ∷ t) = if uses h c && ltb 0 (ends h t) then misuses h t + 1 else misuses h t

module _ (p : Platform) (s : Session) where
  -- The drop of one owner, after which the session itself is dropped if that was the last.
  unfoldable pub release_owner : Owned → Owned
  release_owner o =
      if (o.arcs + length o.packets) == 0
      then record o { world = (drop_session p {E = Error} s o.world).1 }
      else o

  -- What a program can do with the handles and the packets that it holds. A call that panics is
  -- left out, and so is a call of a drop while a panic unwinds.
  pub data Step (o : Owned) : Owned → Type 0 where
    clone : 0 < o.arcs → Step o (record o { arcs = o.arcs + 1 })
    drop_handle : (n : ℕ) → o.arcs ≡ n + 1 → Step o (release_owner (record o { arcs = n }))
    receive_one :
        (packet : Packet)
        → 0 < o.arcs
        → (try_receive p s o.world).0 ≡ ok (some packet)
        → Step o (record o { world = (try_receive p s o.world).1; packets = packet ∷ o.packets })
    receive_none :
        0 < o.arcs
        → (try_receive p s o.world).0 ≡ ok none
        → Step o (record o { world = (try_receive p s o.world).1 })
    receive_failed :
        (e : Error)
        → 0 < o.arcs
        → (try_receive p s o.world).0 ≡ err e
        → Step o (record o { world = (try_receive p s o.world).1 })
    recv_into :
        (buf : List ℕ)
        → 0 < o.arcs
        → (try_recv p s buf o.world).0 ≢ panic
        → Step o (record o { world = (try_recv p s buf o.world).1 })
    wait : 0 < o.arcs → Step o (record o { world = (wait_read p s o.world).1 })
    send_from : (buf : List ℕ) → 0 < o.arcs → Step o (record o { world = (send p s buf o.world).1 })
    allocate_one :
        (size : ℕ) (packet : Packet)
        → 0 < o.arcs
        → (allocate p s size o.world).0 ≡ ok packet
        → Step o (record o { world = (allocate p s size o.world).1; packets = packet ∷ o.packets })
    allocate_failed :
        (size : ℕ) (e : Error)
        → 0 < o.arcs
        → (allocate p s size o.world).0 ≡ err e
        → Step o (record o { world = (allocate p s size o.world).1 })
    shut_down : 0 < o.arcs → Step o (record o { world = (shutdown p s o.world).1 })
    send_one :
        (before after : List Packet) (packet : Packet)
        → 0 < o.arcs
        → o.packets ≡ before ++ packet ∷ after
        → packet.kind ≡ send_packet_pending
        → Step o (record o {
          world = (send_packet_of p {E = Error} s packet o.world).1;
          packets = before ++ after;
        })
    drop_one :
        (before after : List Packet) (packet : Packet)
        → o.packets ≡ before ++ packet ∷ after
        → Step o (
            release_owner (record o {
              world = (drop_packet p {E = Error} packet o.world).1;
              packets = before ++ after;
            }))

  pub data Reach (o : Owned) : Owned → Type 0 where
    here : Reach o o
    next : {a b : Owned} → Reach o a → Step a b → Reach o b
