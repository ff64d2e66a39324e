-- ===== src/Examples/Sessions.antt =====
-- Runs of src/session.rs.
use wintun_bindings.Base.{◌≡◌, ◌≢◌, ◌∷◌, [], ok, err, none, arith, ◌⊎◌}
use wintun_bindings.Examples.Machine.{busy, quiet, silent, session}
use wintun_bindings.Failure.{from_raw_os_error}
use wintun_bindings.Session.Calls.{send, try_recv}
use wintun_bindings.Session.Calls.Agreement.{recv_by_packet, try_recv-eq-recv_by_packet}
use wintun_bindings.Session.Calls.Delivery.{Faults, send-branches}
use wintun_bindings.Session.Loops.{receive_blocking, recv}
use wintun_bindings.Session.Loops.Endings.{IsShutFrom, receiving_ends}
use wintun_bindings.System.{empty_world, Trace, slice, allocate_send_packet, send_packet}

try_recv-eq-recv_by_packet_example :
    try_recv busy session (1 ∷ 2 ∷ []) empty_world
    ≡ recv_by_packet busy session (1 ∷ 2 ∷ []) empty_world
try_recv-eq-recv_by_packet_example =
    try_recv-eq-recv_by_packet busy session empty_world (1 ∷ 2 ∷ [])

send-branches_example :
    let t₁ = allocate_send_packet 5 2 ∷ [] in
    ((silent.allocate_send_packet [] 5 2 ≢ 0)
      × (t : Trace) × ((send silent session (7 ∷ 8 ∷ []) empty_world).0 ≡ ok 2)
      × ((send silent session (7 ∷ 8 ∷ []) empty_world).1.trace
          ≡ send_packet 5 (silent.allocate_send_packet [] 5 2) ∷ t)
      × (slice silent t (silent.allocate_send_packet [] 5 2) 2 ≡ 7 ∷ 8 ∷ []))
    ⊎ ((silent.allocate_send_packet [] 5 2 ≡ 0)
        × (silent.last_error t₁ ≢ 0)
        × (send silent session (7 ∷ 8 ∷ []) empty_world
            ≡ (err (from_raw_os_error 0), record empty_world { trace = t₁ })))
    ⊎ ((silent.allocate_send_packet [] 5 2 ≡ 0)
        × (silent.last_error t₁ ≡ 0)
        × Faults silent session empty_world (7 ∷ 8 ∷ []))
send-branches_example = send-branches silent session empty_world (7 ∷ 8 ∷ [])

pub shut : IsShutFrom quiet session 8
shut t hs h = ground arith

receiving_ends_example :
    ((receive_blocking quiet session 9 empty_world).0 ≢ ok none)
    × ((recv quiet session (1 ∷ []) 9 empty_world).0 ≢ ok none)
receiving_ends_example = receiving_ends quiet session 8 8 (1 ∷ []) empty_world shut (omega arith)
