-- ===== src/Examples/Echoes.antt =====
-- Runs of examples/udp-echo.rs.
use wintun_bindings.Base.{
  ℕ, suc, zero, true, List, [], ◌∷◌, ◌++◌, ◌≡◌, ◌≢◌, ◌⊎◌, inl, inr, ok, some, Text, text, length,
  take, drop, ◌==◌, ◌&&◌, if◌then◌else◌, arith, refl, ap, Bool-cases, sym, ◌∙◌, ◌≤◌, false,
  take-append_length,
}
use wintun_bindings.Examples.Machine.{busy, session, quiet}
use wintun_bindings.Examples.Sessions.{shut}
use wintun_bindings.Programs.Echo.{
  PacketCrate, RandomApi, NaiveUdpPacket, UdpPacket, ip_v4, read_round, write_round,
  extract_udp_packet, swapped,
}
use wintun_bindings.Programs.Echo.Answers.{IsBuilder, echo-answers}
use wintun_bindings.Programs.Server.{
  Reach, here, next, Server, at_test, returned, spawned, Step, stopping, joining, in_round,
  reader_tests, writer_tests, reader_asks, writer_answers, main_shuts_down,
}
use wintun_bindings.Programs.Server.Ending.{stopped_returns, and_then_one, nothing}
use wintun_bindings.Programs.Server.InOrder.{InOrder}
use wintun_bindings.Programs.Server.Order.{Reach-InOrder}
use wintun_bindings.Session.Arrivals.{arrived}
use wintun_bindings.Session.Calls.{try_receive, shutdown}
use wintun_bindings.Session.Loops.{receive_blocking}
use wintun_bindings.Session.Packet.{Packet}
use wintun_bindings.Session.Stream.{delivered}
use wintun_bindings.System.{World, Trace, Platform, empty_world, slice, send_packet, byte_at}
use wintun_bindings.Util.SockAddr.{v4}

-- A format with the two addresses of four octets, the two ports, and the data.
abbrev as_udp : List ℕ → Text ⊎ UdpPacket
as_udp [] = inl (text "short")
as_udp (a ∷ []) = inl (text "short")
as_udp (a ∷ (b ∷ rest)) = inr (record { source = a; destination = b; payload = rest })

abbrev pub format : PacketCrate
format = record {
  as_packet = λ xs. inr (ip_v4 (take 4 xs) (take 4 (drop 4 xs)) (drop 4 (drop 4 xs)) true);
  udp_packet = as_udp;
  describe = λ packet. [];
  build = λ id src dst sp dp content.
      if (length src == 4) && (length dst == 4)
      then inr (src ++ (dst ++ sp ∷ dp ∷ content))
      else inl (text "address");
}

drop-append_length : (n : ℕ) (xs ys : List ℕ) → length xs ≡ n → drop n (xs ++ ys) ≡ ys
drop-append_length zero [] ys h = refl
drop-append_length zero (x ∷ xs) ys h = absurd (omega (arith, h))
drop-append_length (suc n) [] ys h = absurd (omega (arith, h))
drop-append_length (suc n) (x ∷ xs) ys h = drop-append_length n xs ys (omega (arith, h))

format-reads :
    (src dst rest : List ℕ)
    → length src ≡ 4
    → length dst ≡ 4
    → let xs = src ++ (dst ++ rest) in
      (take 4 xs ≡ src) × (take 4 (drop 4 xs) ≡ dst) × (drop 4 (drop 4 xs) ≡ rest)
format-reads src dst rest hs hd =
    let past : drop 4 (src ++ (dst ++ rest)) ≡ dst ++ rest =
      drop-append_length 4 src (dst ++ rest) hs in
    (
      take-append_length 4 src (dst ++ rest) hs,
      ap (take 4) past ∙ take-append_length 4 dst rest hd,
      ap (drop 4) past ∙ drop-append_length 4 dst rest hd,
    )

-- What is read of a text, by its parts.
format-parts :
    (xs src dst payload : List ℕ)
    → take 4 xs ≡ src
    → take 4 (drop 4 xs) ≡ dst
    → drop 4 (drop 4 xs) ≡ payload
    → format.as_packet xs ≡ inr (ip_v4 src dst payload true)
format-parts xs src dst payload from to rest = cc (from, to, rest)

pub format-IsBuilder : IsBuilder format
format-IsBuilder id src dst sp dp content built h =
    elim (Bool-cases ((length src == 4) && (length dst == 4))) [
      | inr bad ↦ absurd (ground (arith, bad, h))
      | inl good ↦
          let same : src ++ (dst ++ sp ∷ dp ∷ content) ≡ built = ground (arith, good, h) in
          let (from, to, payload) =
            format-reads src dst (sp ∷ dp ∷ content) (ground (arith, good))
              (ground (arith, good)) in
          (
            sp ∷ dp ∷ content,
            ap (λ xs. format.as_packet xs) (sym same)
                ∙ format-parts (src ++ (dst ++ sp ∷ dp ∷ content)) src dst (sp ∷ dp ∷ content) from
                    to payload,
            refl,
          )
    ]

-- A packet of eleven bytes waits.
abbrev pub asked : Platform
asked = record busy { receive_packet = λ t h. record { address = 4096; size = 11 } }

abbrev pub random : RandomApi
random = record {
  acquire = λ t. some 1;
  random_bytes = λ t h n. some (1 ∷ 2 ∷ []);
  release = λ t h. true;
}

abbrev pub request : NaiveUdpPacket
request = record {
  src_addr = record { ip = v4 (0 ∷ 1 ∷ 2 ∷ 3 ∷ []); port = 8 };
  dst_addr = record { ip = v4 (4 ∷ 5 ∷ 6 ∷ 7 ∷ []); port = 9 };
  content = 10 ∷ [];
}

reads : (read_round asked random format session 1 empty_world).0 ≡ ok (some (inr (swapped request)))
unfolding read_round receive_blocking try_receive slice byte_at
reads = refl

writes : (write_round asked random format session (swapped request) empty_world).0 ≡ ok tt
unfolding write_round
writes = refl

echo-answers_example :
    (packet : Packet) × (w₁ : World) × (request' : NaiveUdpPacket) × (receive_blocking asked session
        1 empty_world
      ≡ (ok (some packet), w₁))
    × (extract_udp_packet format (slice asked w₁.trace packet.address packet.size) ≡ inr request')
    × (a : ℕ) × (t : Trace) × (built : List ℕ) × (a ≢ 0)
    × ((write_round asked random format session (swapped request) empty_world).1.trace
        ≡ send_packet 5 a ∷ t)
    × (slice asked t a (length built) ≡ built)
    × (extract_udp_packet format built ≡ inr (swapped request'))
echo-answers_example =
    echo-answers asked random format session format-IsBuilder 1 (swapped request) empty_world
      empty_world reads writes

-- The packet is received, answered, and sent back by the two threads.
pair_read :
    read_round asked random format session 1 empty_world
    ≡ (ok (some (inr (swapped request))), (read_round asked random format session 1 empty_world).1)
unfolding read_round receive_blocking try_receive slice byte_at
pair_read = refl

abbrev after_read : World
after_read = (read_round asked random format session 1 empty_world).1

pair_write :
    write_round asked random format session (swapped request) after_read
    ≡ (ok tt, (write_round asked random format session (swapped request) after_read).1)
unfolding write_round read_round receive_blocking try_receive slice byte_at
pair_write = refl

abbrev tested_both : Server
tested_both = record (spawned empty_world) { reader = in_round; writer = in_round }

abbrev has_asked : Server
has_asked = record tested_both {
  world = after_read;
  queue = swapped request ∷ [];
  reader = at_test;
}

abbrev has_answered : Server
has_answered = record has_asked {
  world = (write_round asked random format session (swapped request) after_read).1;
  queue = [];
  writer = at_test;
}

answers : Reach asked random format session (spawned empty_world) has_answered
answers =
    next
      (next (next (next here (reader_tests refl)) (writer_tests refl))
        (reader_asks 1 (swapped request) after_read refl pair_read (λ e. ground (arith, e))))
      (writer_answers (swapped request) []
        (write_round asked random format session (swapped request) after_read).1 refl refl
        pair_write)

pub fresh : (delivered asked 5 [] ≡ []) × (arrived asked 5 [] ≡ [])
unfolding delivered arrived
fresh = (refl, refl)

Reach-InOrder_example : InOrder asked random format session has_answered
Reach-InOrder_example =
    Reach-InOrder asked random format session format-IsBuilder empty_world has_answered fresh.0
      fresh.1 answers

-- `main` shuts the session down while both threads are in a round.
abbrev stopped : Server
stopped = record tested_both { running = false; main = stopping }

shuts_down : shutdown quiet session empty_world ≡ (ok tt, (shutdown quiet session empty_world).1)
unfolding shutdown
shuts_down = refl

abbrev shut_down : Server
shut_down = record stopped { world = (shutdown quiet session empty_world).1; main = joining }

stopped_returns_example :
    (1 ≤ 6)
    × ((shut_down.main ≡ returned) ⊎ ((v : Server) × Step quiet random format session shut_down v))
stopped_returns_example =
    stopped_returns quiet random format session 8 1 stopped shut_down shut
      (refl, λ e. ground (arith, e))
      (and_then_one nothing
        (main_shuts_down (shutdown quiet session empty_world).1 refl shuts_down))
