-- ===== src/Examples/Sharing.antt =====
-- A session whose handle is dropped while a packet that it received is alive: src/session.rs.
use wintun_bindings.Base.{◌≡◌, ◌∷◌, [], ◌<◌, ◌+◌, length, ok, some, arith, refl}
use wintun_bindings.Examples.Machine.{busy, session, packet}
use wintun_bindings.Failure.{Error}
use wintun_bindings.Session.Calls.{try_receive}
use wintun_bindings.Session.Lifetime.{
  Owned, Reach, here, next, receive_one, drop_handle, drop_one, release_owner, ends, misuses,
}
use wintun_bindings.Session.Lifetime.Ownership.{ownership_safe}
use wintun_bindings.Session.Packet.{drop_packet}
use wintun_bindings.Session.Ring.{held}
use wintun_bindings.System.{empty_world}

abbrev start : Owned
start = record { world = empty_world; arcs = 1; packets = [] }

abbrev with_packet : Owned
with_packet = record start {
  world = (try_receive busy session empty_world).1;
  packets = packet ∷ [];
}

abbrev without_handle : Owned
without_handle = release_owner busy session (record with_packet { arcs = 0 })

abbrev finish : Owned
finish = release_owner busy session (record without_handle {
  world = (drop_packet busy {E = Error} packet without_handle.world).1;
  packets = [];
})

found : (try_receive busy session empty_world).0 ≡ ok (some packet)
unfolding try_receive
found = refl

still_alive : without_handle.packets ≡ packet ∷ []
unfolding release_owner
still_alive = refl

run : Reach busy session start finish
run =
    next {a = without_handle}
      (next {a = with_packet} (next {a = start} here (receive_one packet (omega arith) found))
        (drop_handle 0 refl))
      (drop_one [] [] packet still_alive)

none_held : held busy 5 [] ≡ []
unfolding held
none_held = refl

no_ends : ends 5 [] ≡ 0
unfolding ends
no_ends = refl

no_misuses : misuses 5 [] ≡ 0
unfolding misuses
no_misuses = refl

ownership_safe_example :
    (misuses 5 finish.world.trace ≡ 0)
    × (0 < finish.arcs + length finish.packets → ends 5 finish.world.trace ≡ 0)
    × (finish.arcs + length finish.packets ≡ 0
        → (ends 5 finish.world.trace ≡ 1) × (held busy 5 finish.world.trace ≡ []))
ownership_safe_example =
    ownership_safe busy session {o = finish} empty_world none_held no_ends no_misuses run

-- In this run the last owner is gone.
no_owner_left : finish.arcs + length finish.packets ≡ 0
unfolding release_owner drop_packet
no_owner_left = refl
