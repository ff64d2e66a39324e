-- ===== src/Session/Lifetime/Invariant.antt =====
-- An invariant of a session that is shared, and single steps: src/session.rs and src/packet.rs.
use wintun_bindings.Base.{
  ℕ, List, length, ◌∷◌, ◌++◌, ◌≡◌, ◌<◌, ok, arith, ◌+◌, ap, Bool-cases, ◌==◌, inl, ◌∙◌, inr, some,
}
use wintun_bindings.Failure.{Error}
use wintun_bindings.Session.Calls.{send_packet_of, allocate, try_receive}
use wintun_bindings.Session.Lifetime.{Owned, release_owner, ends, misuses}
use wintun_bindings.Session.Lifetime.Account.{
  received, Mine, allocate-packet, held-drop_session, Mine-split, held-allocate,
  held-send_packet_of, length-split, count-received, held-drop_packet_kind,
}
use wintun_bindings.Session.Lifetime.Usage.{
  drop_session-ends, try_receive-Keeps, drop_packet-Keeps, allocate-Keeps, send_packet_of-Keeps,
}
use wintun_bindings.Session.Packet.{Session, Packet, drop_packet, send_packet_pending}
use wintun_bindings.Session.Ring.{count, held, count-erase}
use wintun_bindings.Session.Ring.Balance.{held-try_receive}
use wintun_bindings.System.{Platform, World}

module _ (p : Platform) (s : Session) where
  -- The session is open while it has an owner, and was ended once when it has none; the packets
  -- alive are its own, and the received ones are what the driver holds to be handed out.
  pub record Inv (o : Owned) : Type 0 where
    pub mine : Mine s o.packets
    pub account : (a : ℕ) → count a (held p s.inner o.world.trace) ≡ count a (received o.packets)
    pub alive : 0 < o.arcs + length o.packets → ends s.inner o.world.trace ≡ 0
    pub ended : o.arcs + length o.packets ≡ 0 → ends s.inner o.world.trace ≡ 1
    pub clean : misuses s.inner o.world.trace ≡ 0

  -- The end of an owner, where the rest of the invariant is known of what is left.
  pub release_owner-Inv :
      (o : Owned)
      → Mine s o.packets
      → ((a : ℕ) → count a (held p s.inner o.world.trace) ≡ count a (received o.packets))
      → ends s.inner o.world.trace ≡ 0
      → misuses s.inner o.world.trace ≡ 0
      → Inv (release_owner p s o)
  unfolding release_owner
  release_owner-Inv o m acc e c = elim (Bool-cases ((o.arcs + length o.packets) == 0)) [
    | inl last ↦ rw last (record {
      mine = m;
      account = λ a. rw (held-drop_session p s o.world) (acc a);
      alive = λ h. absurd (ground arith);
      ended = λ _. (drop_session-ends p s o.world e).0;
      clean = (drop_session-ends p s o.world e).1 ∙ c;
    })
    | inr more ↦ rw more (record {
      mine = m;
      account = acc;
      alive = λ _. e;
      ended = λ h. absurd (ground arith);
      clean = c;
    })
  ]

  -- A call that leaves the packets alone.
  pub same-Inv :
      (o : Owned) (w : World)
      → held p s.inner w.trace ≡ held p s.inner o.world.trace
      → (ends s.inner w.trace ≡ 0) × (misuses s.inner w.trace ≡ misuses s.inner o.world.trace)
      → 0 < o.arcs
      → Inv o
      → Inv (record o { world = w })
  same-Inv o w h (e, c) n v = record {
    mine = v.mine;
    account = λ a. rw h (v.account a);
    alive = λ _. e;
    ended = λ z. absurd (omega arith);
    clean = c ∙ v.clean;
  }

  pub receive_one-Inv :
      (o : Owned) (packet : Packet)
      → 0 < o.arcs
      → (try_receive p s o.world).0 ≡ ok (some packet)
      → Inv o
      → Inv (record o { world = (try_receive p s o.world).1; packets = packet ∷ o.packets })
  unfolding received count
  receive_one-Inv o packet n e v =
      let (h, k, m, _) = held-try_receive p s o.world packet e in
      let (z, c) = try_receive-Keeps p s o.world (v.alive (omega arith)) in
      record {
        mine = (ap (λ (x : Session). x.inner) m, v.mine);
        account = λ a. ground (arith, h, k, v.account a);
        alive = λ _. z;
        ended = λ none_left. absurd (omega arith);
        clean = c ∙ v.clean;
      }

  pub allocate_one-Inv :
      (o : Owned) (size : ℕ) (packet : Packet)
      → 0 < o.arcs
      → (allocate p s size o.world).0 ≡ ok packet
      → Inv o
      → Inv (record o { world = (allocate p s size o.world).1; packets = packet ∷ o.packets })
  unfolding received count
  allocate_one-Inv o size packet n e v =
      let (k, m) = allocate-packet p s o.world size packet e in
      let (z, c) = allocate-Keeps p s o.world (v.alive (omega arith)) size in
      record {
        mine = (ap (λ (x : Session). x.inner) m, v.mine);
        account = λ a. ground (arith, held-allocate p s o.world size, k, v.account a);
        alive = λ _. z;
        ended = λ none_left. absurd (omega arith);
        clean = c ∙ v.clean;
      }

  pub send_one-Inv :
      (o : Owned) (xs ys : List Packet) (packet : Packet)
      → 0 < o.arcs
      → o.packets ≡ xs ++ packet ∷ ys
      → packet.kind ≡ send_packet_pending
      → Inv o
      → Inv (record o {
        world = (send_packet_of p {E = Error} s packet o.world).1;
        packets = xs ++ ys;
      })
  unfolding received count
  send_one-Inv o xs ys packet n e k v =
      let (z, c) = send_packet_of-Keeps p s o.world (v.alive (omega arith)) packet in
      record {
        mine = (Mine-split s xs ys packet (rw e at v.mine)).1;
        account = λ a. ground (
          arith,
          held-send_packet_of p s o.world packet k,
          v.account a,
          count-received a packet xs ys,
        );
        alive = λ _. z;
        ended = λ none_left. absurd (omega arith);
        clean = c ∙ v.clean;
      }

  pub drop_one-Inv :
      (o : Owned) (xs ys : List Packet) (packet : Packet)
      → o.packets ≡ xs ++ packet ∷ ys
      → Inv o
      → Inv (
          release_owner p s
            (record o { world = (drop_packet p {E = Error} packet o.world).1; packets = xs ++ ys }))
  unfolding received count
  drop_one-Inv o xs ys packet e v =
      let (m, rest) = Mine-split s xs ys packet (rw e at v.mine) in
      let full : 0 < o.arcs + length o.packets =
        rw e (omega (arith, length-split {0} xs ys packet)) in
      let (z, c) = drop_packet-Keeps p s o.world (v.alive full) packet in
      release_owner-Inv _ rest
        (λ a. ground (
          arith,
          held-drop_packet_kind p s o.world packet m,
          count-erase a packet.address (held p s.inner o.world.trace),
          v.account a,
          count-received a packet xs ys,
        ))
        z (c ∙ v.clean)
