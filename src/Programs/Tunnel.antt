-- ===== src/Programs/Tunnel.antt =====
-- examples/wireshark.rs: how `main` takes over the traffic of the machine, sends a packet a second, and
-- gives the traffic back.
pub mod Undoing
pub mod Pinging
pub mod Starting
use wintun_bindings.Adapter.{Adapter}
use wintun_bindings.Adapter.Lifecycle.{start_session_on, max_ring_capacity}
use wintun_bindings.Adapter.Registry.{Registry}
use wintun_bindings.Adapter.Settings.{Network}
use wintun_bindings.Base.{
  ℕ, zero, suc, List, ◌∷◌, [], Text, ◌%◌, ◌/◌, ◌⊎◌, inl, Bool, inr, Option, if◌then◌else◌, text,
  none, ◌==◌, false, some, true,
}
use wintun_bindings.Failure.{Error, string, io}
use wintun_bindings.Programs.Basic.{or_drop, open_or_create}
use wintun_bindings.Programs.Routes.{set_up, routes, Shell, clean_up, RouteCmd}
use wintun_bindings.Session.Calls.{shutdown, allocate, send_packet_of}
use wintun_bindings.Session.Packet.{Session, drop_packet, Packet}
use wintun_bindings.System.{
  M, Trace, Platform, ◌>>=◌, attempt, observe, fail, ◌>>◌, pure, panics, tell, map_err, from_result,
  copy_to,
}
use wintun_bindings.Util.FormatMessage.{format_message}
use wintun_bindings.Util.SockAddr.{IpAddr, v4}
use wintun_bindings.Version.{running_version}

-- The capture file, which is created and gets its header, and the table of routes of Windows: the code
-- and the next hop that `GetBestRoute` answers for 1.1.1.1, as a `u32`.
pub record Surroundings : Type 0 where
  pub create_file : Trace → Text ⊎ Unit {0}
  pub write_header : Trace → Text ⊎ Unit {0}
  pub best_route : Trace → ℕ
  pub next_hop : Trace → ℕ

-- The builder of the crate `packet` on a buffer of 28 bytes, with the destination of the echo request: its
-- result, and the bytes that it leaves in the buffer.
pub record PingCrate : Type 0 where
  pub build_request : List ℕ → (Text ⊎ Unit {0}) × List ℕ

-- The result of a thread that has been joined: a panic, or what its closure has returned.
abbrev pub Joined : Type 0 → Type 0
Joined A = Text ⊎ (Error ⊎ A)

-- `join().map_err(..)??`
abbrev pub join_thread : {A : Type 0} → Joined A → M Error A
join_thread (inl panicked) = fail (string panicked)
join_thread (inr (inl e)) = fail e
join_thread (inr (inr a)) = pure a

-- `to_ne_bytes` of a `u32`, on a little-endian machine.
abbrev pub ne_bytes : ℕ → List ℕ
ne_bytes x = x % 256 ∷ x / 256 % 256 ∷ x / 65536 % 256 ∷ x / 16777216 % 256 ∷ []

-- `unwrap`
abbrev pub unwrap : {E F A : Type 0} → M E A → M F A
unwrap call = do r ← attempt call; elim r [ inr a ↦ pure a | inl e ↦ panics ]

module _ (n : Network) (env : Surroundings) where
  -- The default gateway, which is only logged.
  unfoldable pub default_gateway : M Error IpAddr
  unfolding format_message
  default_gateway = do
    result ← observe env.best_route
    if result == 0 then (do hop ← observe env.next_hop; pure (v4 (ne_bytes hop))) else (do
      _ ← map_err io (format_message n.platform n.messages result)
      fail (string (text "Failed to get best route")))

  -- `main` with its adapter and the vector of routes, up to the session. A foreign error is its text.
  unfoldable pub take_over : Shell → List RouteCmd → Adapter → M Error Session
  unfolding default_gateway set_up
  take_over shell routes_set adapter = do
    _ ← running_version n.platform
    _ ← default_gateway
    map_err string (set_up shell routes_set)
    created ← observe env.create_file
    map_err string (from_result created)
    written ← observe env.write_header
    map_err string (from_result written)
    start_session_on n.platform adapter max_ring_capacity

  -- `main` from the library on. `key_rounds` is the fuel of the loops of `drop_adapter`.
  unfoldable pub begin_capture : Shell → Registry → ℕ → M Error Session
  unfolding take_over or_drop open_or_create routes
  begin_capture shell registry key_rounds = do
    adapter ← open_or_create n.platform n.helper (text "Demo") (text "Example") none
    or_drop n registry key_rounds adapter (take_over shell (routes adapter.index) adapter)

module _ (p : Platform) (s : Session) where
  -- The builder writes into the packet, which is sent, or dropped unsent on an error.
  unfoldable pub filled : PingCrate → Packet → M Error (Unit {0})
  unfolding drop_packet send_packet_of
  filled ping packet = do
    tell (copy_to packet.address (ping.build_request (10 ∷ 8 ∷ 0 ∷ 2 ∷ [])).1)
    elim (ping.build_request (10 ∷ 8 ∷ 0 ∷ 2 ∷ [])).0 [
      | inr built ↦ send_packet_of p s packet
      | inl e ↦ do drop_packet p packet; fail (string e)
    ]

  -- A round of the thread `writer`.
  unfoldable pub ping_round : PingCrate → M Error (Unit {0})
  unfolding allocate filled
  ping_round ping = unwrap (allocate p s 28) >>= filled ping

  -- The thread `writer`. Fuel counts the rounds, and a result `none` is a thread that goes on.
  unfoldable pub ping_packets : (Trace → Bool) → PingCrate → ℕ → M Error (Option (Unit {0}))
  unfolding ping_round
  ping_packets running ping zero = pure none
  ping_packets running ping (suc fuel) = do
    on ← observe running
    elim on [ false ↦ pure (some tt) | true ↦ do ping_round ping; ping_packets running ping fuel ]

  -- `main` after its line was read: the session is shut down, the threads are joined, and the routes
  -- are deleted. What the threads return is read off the calls so far.
  unfoldable pub give_back :
      Shell → List RouteCmd → (Trace → Joined ℕ) → (Trace → Joined (Unit {0})) → M Error ℕ
  unfolding shutdown clean_up
  give_back shell routes_set reader writer = do
    shutdown p s
    captured ← observe reader
    packets_captured ← join_thread captured
    sent ← observe writer
    join_thread sent
    map_err string (clean_up shell routes_set)
    pure packets_captured
