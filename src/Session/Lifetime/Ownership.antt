-- ===== src/Session/Lifetime/Ownership.antt =====
-- The steps of the owners of a session, and runs of them: src/session.rs and src/packet.rs.
use wintun_bindings.Base.{length, ◌≡◌, [], ◌<◌, arith, ◌+◌, ◌∙◌}
use wintun_bindings.Session.Lifetime.{
  Owned, ends, misuses, Step, clone, drop_handle, receive_one, receive_none, Reach, next, recv_into,
  here, wait, send_from, allocate_one, send_one, drop_one, receive_failed, allocate_failed,
  shut_down,
}
use wintun_bindings.Session.Lifetime.Account.{
  held-send, received, count-received_none, held-allocate, held-receive_failed, held-shutdown,
}
use wintun_bindings.Session.Lifetime.Invariant.{
  Inv, release_owner-Inv, same-Inv, receive_one-Inv, allocate_one-Inv, send_one-Inv, drop_one-Inv,
}
use wintun_bindings.Session.Lifetime.Usage.{
  try_receive-Keeps, allocate-Keeps, try_recv-Keeps, wait_read-Keeps, send-Keeps, shutdown-Keeps,
}
use wintun_bindings.Session.Packet.{Session}
use wintun_bindings.Session.Ring.{count, held, eq-nil-of-count}
use wintun_bindings.Session.Ring.Balance.{held-try_receive-none, held-try_recv, held-wait_read}
use wintun_bindings.System.{Platform, World}

module _ (p : Platform) (s : Session) where
  -- Whatever a program does with its handles and packets keeps the invariant.
  pub Step-Inv : {o o' : Owned} → Step p s o o' → Inv p s o → Inv p s o'
  Step-Inv {o} (clone n) v = record {
    mine = v.mine;
    account = v.account;
    alive = λ _. v.alive (omega arith);
    ended = λ h. absurd (omega arith);
    clean = v.clean;
  }
  Step-Inv {o} (drop_handle n e) v =
      release_owner-Inv p s (record o { arcs = n }) v.mine v.account (v.alive (omega arith)) v.clean
  Step-Inv {o} (receive_one packet n e) v = receive_one-Inv p s o packet n e v
  Step-Inv {o} (receive_none n e) v =
      same-Inv p s o _ (held-try_receive-none p s o.world e)
        (try_receive-Keeps p s o.world (v.alive (omega arith))) n v
  Step-Inv {o} (receive_failed x n e) v =
      same-Inv p s o _ (held-receive_failed p s o.world x e)
        (try_receive-Keeps p s o.world (v.alive (omega arith))) n v
  Step-Inv {o} (allocate_failed size x n e) v =
      same-Inv p s o _ (held-allocate p s o.world size)
        (allocate-Keeps p s o.world (v.alive (omega arith)) size) n v
  Step-Inv {o} (shut_down n) v =
      same-Inv p s o _ (held-shutdown p s o.world)
        (shutdown-Keeps p s o.world (v.alive (omega arith))) n v
  Step-Inv {o} (recv_into buf n e) v =
      same-Inv p s o _ (held-try_recv p s s.inner o.world buf e)
        (try_recv-Keeps p s o.world (v.alive (omega arith)) buf) n v
  Step-Inv {o} (wait n) v =
      same-Inv p s o _ (held-wait_read p s s.inner o.world)
        (wait_read-Keeps p s o.world (v.alive (omega arith))) n v
  Step-Inv {o} (send_from buf n) v =
      same-Inv p s o _ (held-send p s o.world buf)
        (send-Keeps p s o.world (v.alive (omega arith)) buf) n v
  Step-Inv {o} (allocate_one size packet n e) v = allocate_one-Inv p s o size packet n e v
  Step-Inv {o} (send_one xs ys packet n e k) v = send_one-Inv p s o xs ys packet n e k v
  Step-Inv {o} (drop_one xs ys packet e) v = drop_one-Inv p s o xs ys packet e v

  Reach-Inv : {o o' : Owned} → Inv p s o → Reach p s o o' → Inv p s o'
  Reach-Inv v here = v
  Reach-Inv v (next r st) = Step-Inv st (Reach-Inv v r)

  -- From a session that one handle owns and that holds no packet, every sequence of steps makes no
  -- call to the session after its end. While an owner is left the session was not ended; when none
  -- is left it was ended once, and every packet that it handed out was released.
  pub ownership_safe :
      {o : Owned} (w : World)
      → held p s.inner w.trace ≡ []
      → ends s.inner w.trace ≡ 0
      → misuses s.inner w.trace ≡ 0
      → Reach p s (record { world = w; arcs = 1; packets = [] }) o
      → (misuses s.inner o.world.trace ≡ 0)
        × (0 < o.arcs + length o.packets → ends s.inner o.world.trace ≡ 0)
        × (o.arcs + length o.packets ≡ 0
            → (ends s.inner o.world.trace ≡ 1) × (held p s.inner o.world.trace ≡ []))
  unfolding received count
  ownership_safe {o} w h e m r = (
    v.clean,
    v.alive,
    λ z. (
      v.ended z,
      eq-nil-of-count _ (λ a. v.account a ∙ count-received_none a o.packets (omega arith)),
    ),
  )
    where
      v : Inv p s o
      v =
          Reach-Inv
            (record {
              mine = tt;
              account = λ a. rw h;
              alive = λ _. e;
              ended = λ z. absurd (omega arith);
              clean = m;
            })
            r
