-- ===== src/Examples/Driver.antt =====
-- A driver that keeps its contract, with two packets to receive, and runs of src/session.rs on it.
use mathlib.Core.List.{append-nil}
use wintun_bindings.Base.{
  length, ℕ, ◌≡◌, ◌∷◌, [], ◌++◌, List, ok, inl, map, arith, refl, sym, ◌≢◌, ◌≤◌,
}
use wintun_bindings.Examples.Machine.{busy, session}
use wintun_bindings.Session.Stream.{Op, receive_into, send_from, Reply, Steps, Driver, run_ops}
use wintun_bindings.Session.Stream.Refine.{stream, run_ops-Steps}
use wintun_bindings.System.{
  World, Trace, Platform, Received, empty_world, receive_packet, slice, byte_at,
}

-- Each packet has three times the same byte.
abbrev as_packet : ℕ → List ℕ
as_packet x = x ∷ x ∷ x ∷ []

abbrev rest_of : List ℕ → List ℕ
rest_of [] = []
rest_of (x ∷ xs) = xs

-- The packets that wait, by their bytes.
abbrev queue : Trace → List ℕ
queue [] = 1 ∷ 2 ∷ []
queue (receive_packet h ∷ t) = rest_of (queue t)
queue (c ∷ t) = queue t

abbrev first_of : List ℕ → Received
first_of [] = record { address = 0; size = 0 }
first_of (x ∷ xs) = record { address = 4096; size = 3 }

abbrev byte_of : List ℕ → ℕ
byte_of [] = 0
byte_of (x ∷ xs) = x

-- The memory has the bytes of the packet that was received last.
abbrev last_byte : Trace → ℕ
last_byte [] = 0
last_byte (receive_packet h ∷ t) = byte_of (queue t)
last_byte (c ∷ t) = last_byte t

abbrev two_packets : Platform
two_packets = record busy {
  receive_packet = λ t h. first_of (queue t);
  memory = λ t x. last_byte t;
  last_error = λ t. 259;
}

abbrev waiting : Trace → List (List ℕ)
waiting t = map as_packet (queue t)

no_more : (xs : List ℕ) → map as_packet xs ≡ [] → xs ≡ []
no_more [] e = refl
no_more (x ∷ xs) e = ground arith

first_one :
    (xs : List ℕ) (b : List ℕ) (rest : List (List ℕ))
    → map as_packet xs ≡ b ∷ rest
    → (x : ℕ) × (xs ≡ x ∷ rest_of xs) × (b ≡ as_packet x) × (rest ≡ map as_packet (rest_of xs))
first_one [] b rest e = ground arith
first_one (x ∷ xs) b rest e = (x, refl, ground (arith, e), ground (arith, e))

receives_the_first :
    (t : Trace) (b : List ℕ) (rest : List (List ℕ))
    → waiting t ≡ b ∷ rest
    → let r = two_packets.receive_packet t 5 in
      (r.address ≢ 0)
      × (r.size ≡ length b)
      × (length b ≤ 65535)
      × (slice two_packets (receive_packet 5 ∷ t) r.address (length b) ≡ b)
      × (new : List (List ℕ)) × (waiting (receive_packet 5 ∷ t) ≡ rest ++ new)
unfolding slice byte_at
receives_the_first t b rest e =
    let (x, queued, same, others) = first_one (queue t) b rest e in
    rw (same, others, queued)
      (omega arith, refl, omega arith, refl, [], sym (append-nil (waiting (receive_packet 5 ∷ t))))

driver : Driver two_packets 5
driver = record {
  waiting = waiting;
  receives_none = λ t e. rw (no_more (queue t) e) (refl, refl, omega arith);
  receives_first = receives_the_first;
  keeps_release = λ t a. ([], sym (append-nil (waiting t)));
  keeps_allocate = λ t n. ([], sym (append-nil (waiting t)));
  keeps_copy = λ t a bs. ([], sym (append-nil (waiting t)));
  keeps_send = λ t a. ([], sym (append-nil (waiting t)));
  allocates = λ t n. inl (omega arith);
}

abbrev ops : List Op
ops =
    receive_into (0 ∷ 0 ∷ 0 ∷ 9 ∷ [])
    ∷ send_from (7 ∷ 8 ∷ [])
    ∷ receive_into (0 ∷ [])
    ∷ receive_into []
    ∷ []

run_ops-Steps_example :
    (replies : List Reply) × (w' : World) × (run_ops two_packets session ops empty_world
      ≡ (ok replies, w'))
    × Steps
        (stream two_packets session driver [])
        ops
        replies
        (stream two_packets session driver w'.trace)
run_ops-Steps_example =
    run_ops-Steps two_packets session driver ops empty_world (tt, (omega arith, (tt, (tt, tt))))
