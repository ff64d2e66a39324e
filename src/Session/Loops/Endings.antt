-- ===== src/Session/Loops/Endings.antt =====
-- The blocking loops of src/session.rs: the packets that they take, and their rounds.
use wintun_bindings.Base.{
  inl, inr, Option-cases, ℕ, zero, suc, ◌+◌, ◌≤◌, List, ◌≡◌, arith, ok, ◌≢◌, length, none, ◌∷◌, [],
  some, panic, refl,
}
use wintun_bindings.Session.Calls.{
  init_read_event, try_receive, wait_read, read_wait_event, try_recv,
}
use wintun_bindings.Session.Loops.{receive_tries, receive_blocking, recv_tries, recv}
use wintun_bindings.Session.Packet.{Session, Packet}
use wintun_bindings.Session.Ring.{held}
use wintun_bindings.Session.Ring.Balance.{
  held-try_recv, held-wait_read, held-try_receive-none, held-try_receive,
}
use wintun_bindings.System.{World, Platform, Trace}

module _ (p : Platform) (s : Session) where
  pub length-try_receive : (w : World) → length (try_receive p s w).1.trace ≡ length w.trace + 1
  unfolding try_receive
  length-try_receive w = ground arith

  length-receive_tries :
      (n : ℕ) (w : World) → length w.trace ≤ length (receive_tries p s n w).1.trace
  unfolding receive_tries
  length-receive_tries zero w = omega arith
  length-receive_tries (suc n) w =
      ground (arith, length-try_receive w, length-receive_tries n (try_receive p s w).1)

  -- From `k` calls on, every wait is answered by the shutdown event.
  abbrev pub IsShutFrom : ℕ → Type 0
  IsShutFrom k = (t : Trace) (hs : List ℕ) → k ≤ length t → p.wait_for_multiple_objects t hs ≡ 1

  read_wait_event-ok :
      (w : World)
      → (e : ℕ) × (w' : World) × (read_wait_event p s w ≡ (ok e, w'))
        × (length w.trace ≤ length w'.trace)
  unfolding read_wait_event
  read_wait_event-ok w = elim (Option-cases (w.cell s.read_event)) [
    | inl e ↦ (
      p.get_read_wait_event w.trace s.inner,
      (read_wait_event p s w).1,
      rw (e, init_read_event),
      rw (e, init_read_event) (omega arith),
    )
    | inr (x, e) ↦ (x, w, rw (e, init_read_event), omega arith)
  ]

  wait_read_shut :
      (k : ℕ) (w : World) → IsShutFrom k → k ≤ length w.trace → (wait_read p s w).0 ≢ ok tt
  unfolding wait_read
  wait_read_shut k w shut h =
      let (e, w', eq, le) = read_wait_event-ok w in
      rw (eq, wait_read) (ground (arith, shut w'.trace (e ∷ s.shutdown_event ∷ []) (omega arith)))

  length-wait_read : (w : World) → length w.trace + 1 ≤ length (wait_read p s w).1.trace
  unfolding wait_read
  length-wait_read w = ground arith

  pub receive_blocking_ends :
      (k fuel : ℕ) (w : World)
      → IsShutFrom k
      → k ≤ fuel + length w.trace
      → (receive_blocking p s (suc fuel) w).0 ≢ ok none
  unfolding receive_blocking
  receive_blocking_ends k zero w shut h =
      ground (arith, length-receive_tries 5 w, wait_read_shut k (receive_tries p s 5 w).1 shut)
  receive_blocking_ends k (suc fuel) w shut h = ground (
    arith,
    length-receive_tries 5 w,
    length-wait_read (receive_tries p s 5 w).1,
    receive_blocking_ends k fuel (wait_read p s (receive_tries p s 5 w).1).1 shut,
  )

  pub length-receive_blocking :
      (fuel : ℕ) (w : World) → length w.trace ≤ length (receive_blocking p s fuel w).1.trace
  unfolding receive_blocking
  length-receive_blocking zero w = omega arith
  length-receive_blocking (suc fuel) w = ground (
    arith,
    length-receive_tries 5 w,
    length-wait_read (receive_tries p s 5 w).1,
    length-receive_blocking fuel (wait_read p s (receive_tries p s 5 w).1).1,
  )

  length-try_recv :
      (buf : List ℕ) (w : World) → length w.trace + 1 ≤ length (try_recv p s buf w).1.trace
  unfolding try_recv
  length-try_recv buf w = ground arith

  length-recv_tries :
      (buf : List ℕ) (n : ℕ) (w : World) → length w.trace ≤ length (recv_tries p s buf n w).1.trace
  unfolding recv_tries
  length-recv_tries buf zero w = omega arith
  length-recv_tries buf (suc n) w =
      ground (arith, length-try_recv buf w, length-recv_tries buf n (try_recv p s buf w).1)

  recv_ends :
      (k : ℕ) (buf : List ℕ) (fuel : ℕ) (w : World)
      → IsShutFrom k
      → k ≤ fuel + length w.trace
      → (recv p s buf (suc fuel) w).0 ≢ ok none
  unfolding recv
  recv_ends k buf zero w shut h =
      ground (arith, length-recv_tries buf 5 w, wait_read_shut k (recv_tries p s buf 5 w).1 shut)
  recv_ends k buf (suc fuel) w shut h = ground (
    arith,
    length-recv_tries buf 5 w,
    length-wait_read (recv_tries p s buf 5 w).1,
    recv_ends k buf fuel (wait_read p s (recv_tries p s buf 5 w).1).1 shut,
  )

  -- Once every wait is answered by the shutdown event, `receive_blocking` and the blocking `recv` end:
  -- as many rounds as there are calls left before that, and one more, are enough fuel.
  pub receiving_ends :
      (k fuel : ℕ) (buf : List ℕ) (w : World)
      → IsShutFrom k
      → k ≤ fuel + length w.trace
      → ((receive_blocking p s (suc fuel) w).0 ≢ ok none)
        × ((recv p s buf (suc fuel) w).0 ≢ ok none)
  receiving_ends k fuel buf w shut h =
      (receive_blocking_ends k fuel w shut h, recv_ends k buf fuel w shut h)

  held-recv_tries :
      (h : ℕ) (buf : List ℕ) (n : ℕ) (w : World)
      → (recv_tries p s buf n w).0 ≢ panic
      → held p h (recv_tries p s buf n w).1.trace ≡ held p h w.trace
  unfolding recv_tries
  held-recv_tries h buf zero w ne = refl
  held-recv_tries h buf (suc n) w ne =
      ground (arith, held-try_recv p s h w buf, held-recv_tries h buf n (try_recv p s buf w).1)

  -- However long `recv` waits and however it ends, short of a panic, it holds no packet afterwards
  -- that was not held before.
  held-recv :
      (h : ℕ) (buf : List ℕ) (fuel : ℕ) (w : World)
      → (recv p s buf fuel w).0 ≢ panic
      → held p h (recv p s buf fuel w).1.trace ≡ held p h w.trace
  unfolding recv
  held-recv h buf zero w ne = refl
  held-recv h buf (suc fuel) w ne = ground (
    arith,
    held-recv_tries h buf 5 w,
    held-wait_read p s h (recv_tries p s buf 5 w).1,
    held-recv h buf fuel (wait_read p s (recv_tries p s buf 5 w).1).1,
  )

  held-receive_tries :
      (n : ℕ) (w : World) (packet : Packet)
      → (receive_tries p s n w).0 ≡ ok (some packet)
      → (held p s.inner (receive_tries p s n w).1.trace ≡ packet.address ∷ held p s.inner w.trace)
  unfolding receive_tries
  held-receive_tries zero w packet e = cc
  held-receive_tries (suc n) w packet e = ground (
    arith,
    held-try_receive p s w packet,
    held-try_receive-none p s w,
    held-receive_tries n (try_receive p s w).1 packet,
  )

  pub held-receive_tries-none :
      (n : ℕ) (w : World)
      → (receive_tries p s n w).0 ≡ ok none
      → (held p s.inner (receive_tries p s n w).1.trace ≡ held p s.inner w.trace)
  unfolding receive_tries
  held-receive_tries-none zero w e = refl
  held-receive_tries-none (suc n) w e =
      ground (arith, held-try_receive-none p s w, held-receive_tries-none n (try_receive p s w).1)

  -- The packet that `receive_blocking` returns is the one packet that it holds in addition.
  pub held-receive_blocking :
      (fuel : ℕ) (w : World) (packet : Packet)
      → (receive_blocking p s fuel w).0 ≡ ok (some packet)
      → (held p s.inner (receive_blocking p s fuel w).1.trace
          ≡ packet.address ∷ held p s.inner w.trace)
  unfolding receive_blocking
  held-receive_blocking zero w packet e = cc
  held-receive_blocking (suc fuel) w packet e = ground (
    arith,
    held-receive_tries 5 w packet,
    held-receive_tries-none 5 w,
    held-wait_read p s s.inner (receive_tries p s 5 w).1,
    held-receive_blocking fuel (wait_read p s (receive_tries p s 5 w).1).1 packet,
  )
