-- ===== src/Examples/Readers.antt =====
-- Runs of the readers of the programs under examples.
use wintun_bindings.AsyncSession.Defs.{idle, copy_out}
use wintun_bindings.AsyncSession.PollRead.{poll_read, turn}
use wintun_bindings.Base.{
  Bool, [], ◌≡◌, ◌≢◌, inl, inr, ok, err, some, text, length, if◌then◌else◌, arith, refl, ltb, panic,
  none,
}
use wintun_bindings.Examples.Asyncs.{once, strict, once-IsPolling}
use wintun_bindings.Examples.Echoes.{random}
use wintun_bindings.Examples.Machine.{busy, session, quiet}
use wintun_bindings.Examples.Tasks.{pool}
use wintun_bindings.Failure.{string}
use wintun_bindings.Programs.Async.{read_round_async, read_async, Futures, read_bytes, zeros}
use wintun_bindings.Programs.Basic.{read_packets}
use wintun_bindings.Programs.Capture.{capture, Pcap, write_down}
use wintun_bindings.Programs.Echo.{read_round}
use wintun_bindings.Programs.Readers.{held-readers}
use wintun_bindings.Programs.Stopping.{IsClearedFrom, readers_end}
use wintun_bindings.Session.Calls.{try_receive}
use wintun_bindings.Session.Loops.{receive_blocking}
use wintun_bindings.Session.Loops.Endings.{IsShutFrom}
use wintun_bindings.Session.Packet.{drop_packet}
use wintun_bindings.Session.Ring.{held}
use wintun_bindings.System.{Trace, empty_world, slice, byte_at, Platform}

-- The flag of the reader, which is taken back after six calls.
abbrev early : Trace → Bool
early t = ltb (length t) 6

reads_on : (read_packets busy early session 2 4 empty_world).0 ≡ ok (some tt)
unfolding read_packets receive_blocking try_receive drop_packet
reads_on = refl

reads_calm : (read_packets busy early session 2 4 empty_world).0 ≢ panic
reads_calm = rw reads_on (ground arith)

-- A file that takes packets as long as less than four calls were made.
abbrev full_soon : Pcap
full_soon = record {
  since_epoch = λ t. inr 9;
  write_packet = λ t time content. if ltb (length t) 4 then inr tt else inl (text "full");
}

captures :
    (capture busy early session full_soon 2 4 0 empty_world).0
    ≡ err (string (text "Failed to write packet to pcap: full"))
unfolding capture receive_blocking try_receive drop_packet write_down
captures = refl

captures_calm : (capture busy early session full_soon 2 4 0 empty_world).0 ≢ panic
captures_calm = rw captures (ground arith)

abbrev polled_once : Futures
polled_once = once busy pool session

reads_on_async : (read_async polled_once early idle 4 empty_world).0 ≡ ok (some tt)
unfolding read_async read_bytes zeros poll_read turn try_receive slice byte_at copy_out
reads_on_async = refl

reads_calm_async : (read_async polled_once early idle 4 empty_world).0 ≢ panic
reads_calm_async = rw reads_on_async (ground arith)

reads_round : (read_round_async polled_once strict idle empty_world).0 ≢ panic
unfolding read_round_async read_bytes zeros poll_read turn try_receive slice byte_at copy_out
reads_round = ground arith

reads_round_blocking : (read_round busy random strict session 2 empty_world).0 ≢ panic
unfolding read_round receive_blocking try_receive drop_packet slice byte_at
reads_round_blocking = ground arith

held-readers_example :
    (held busy 5 (read_packets busy early session 2 4 empty_world).1.trace ≡ held busy 5 [])
    × (held busy 5 (capture busy early session full_soon 2 4 0 empty_world).1.trace
        ≡ held busy 5 [])
    × (held busy 5 (read_async polled_once early idle 4 empty_world).1.trace ≡ held busy 5 [])
    × (held busy 5 (read_round busy random strict session 2 empty_world).1.trace ≡ held busy 5 [])
    × (held busy 5 (read_round_async polled_once strict idle empty_world).1.trace ≡ held busy 5 [])
held-readers_example =
    held-readers busy pool session early polled_once full_soon random strict idle 2 4 0 empty_world
      (once-IsPolling busy pool session) reads_calm captures_calm reads_calm_async
      reads_round_blocking reads_round

-- A driver that has a packet as long as less than four calls were made, and a file that takes it.
abbrev leaving : Platform
leaving = record quiet {
  receive_packet = λ t h.
      if ltb (length t) 4
      then record { address = 4096; size = 3 }
      else record { address = 0; size = 0 };
}

abbrev roomy : Pcap
roomy = record full_soon { write_packet = λ t time content. inr tt }

leaving-IsShut : IsShutFrom leaving session 8
leaving-IsShut t hs h = ground arith

-- The flag, which is taken back within the first eight calls.
early-IsCleared : IsClearedFrom 8 early
early-IsCleared t h = ground arith

readers_end_example :
    ((read_packets leaving early session 9 9 empty_world).0 ≢ ok none)
    × ((capture leaving early session roomy 9 9 0 empty_world).0 ≢ ok none)
readers_end_example =
    readers_end leaving early session 8 leaving-IsShut early-IsCleared roomy 8 8 0 empty_world
      (omega arith) (omega arith)
