-- ===== src/Programs/Async.antt =====
-- examples/basic-async.rs and examples/udp-echo-async.rs, which use a session through the crate futures:
-- the start of the second, the reader of both, and the rounds of its writer.
pub mod Polling
pub mod Reading
pub mod Answers
pub mod Handing
pub mod Starting
use wintun_bindings.Adapter.{Adapter}
use wintun_bindings.Adapter.Lifecycle.{start_session_on, max_ring_capacity}
use wintun_bindings.Adapter.Registry.{Registry}
use wintun_bindings.Adapter.Settings.{Network, set_dns_servers, addresses_of, gateways_of, get_mtu}
use wintun_bindings.AsyncSession.Defs.{ReadState, idle}
use wintun_bindings.Base.{
  ℕ, zero, suc, List, Option, Bool, [], ◌∷◌, Text, ◌⊎◌, none, inl, some, text, false, true, inr,
  if◌then◌else◌, ◌==◌, take,
}
use wintun_bindings.Failure.{Error, IoError, io}
use wintun_bindings.Programs.Basic.{or_drop, open_or_create}
use wintun_bindings.Programs.Configured.{netmasks, metric_args, address_args}
use wintun_bindings.Programs.Echo.{
  extract_udp_packet, generate_random_bytes, write_with, PacketCrate, RandomApi, NaiveUdpPacket,
  ask,
}
use wintun_bindings.Session.Packet.{Session}
use wintun_bindings.System.{Trace, M, pure, ◌>>=◌, Platform, map_err, attempt, observe, fail, ◌>>◌}
use wintun_bindings.Util.Command.{run_command}
use wintun_bindings.Util.Interfaces.{get_active_network_interface_gateways}
use wintun_bindings.Util.SockAddr.{v4}
use wintun_bindings.Version.{running_version}

-- Of the crate futures, `read` and `write_all` on a session that are awaited. A `read` that never ends is
-- none; if it ends, it gives the read state of the session, and the length and the buffer, or an error.
pub record Futures : Type 0 where
  pub read : ReadState → List ℕ → M ⊥ (Option (ReadState × (IoError ⊎ (ℕ × List ℕ))))
  pub write_all : List ℕ → M IoError (Unit {0})

-- `From<Arc<Session>>` makes a session that reads nothing yet.
abbrev pub from_session : ReadState
from_session = idle

-- The array of 1500 zeros.
unfoldable pub zeros : ℕ → List ℕ
zeros zero = []
zeros (suc n) = 0 ∷ zeros n

-- What has been read.
pub data Got : Type 0 where
  still_waiting : Got
  closed_session : Got
  got : ReadState → List ℕ → Got

-- What a round of the task `reader` of udp-echo-async.rs comes to: it goes on to wait, it leaves the loop,
-- or it has something for the writer or a text to print.
pub data Round : Type 0 where
  waits ends : Round
  asks : ReadState → Text ⊎ NaiveUdpPacket → Round

module _ (f : Futures) where
  -- `read(&mut bytes).await?`, with the test of the length and the first `len` bytes.
  unfoldable pub read_bytes : ReadState → M Error Got
  read_bytes state = do
    r ← map_err absurd (f.read state (zeros 1500))
    elim r [
      | none ↦ pure still_waiting
      | some (state', inl e) ↦ fail (io e)
      | some (state', inr (len, buf)) ↦
          pure (if len == 0 then closed_session else got state' (take len buf))
    ]

  -- The task `reader` of basic-async.rs. Fuel counts the rounds; a result `none` is a task that goes on.
  -- `running` is the static `RUNNING`.
  unfoldable pub read_async : (Trace → Bool) → ReadState → ℕ → M Error (Option (Unit {0}))
  unfolding read_bytes
  read_async running state zero = pure none
  read_async running state (suc fuel) = do
    on ← observe running
    elim on [
      | false ↦ pure (some tt)
      | true ↦ do
        r ← read_bytes state
        elim r [
          | still_waiting ↦ pure none
          | closed_session ↦ pure (some tt)
          | got state' data_read ↦ read_async running state' fuel
        ]
    ]

  -- A round of the task `reader` of udp-echo-async.rs.
  unfoldable pub read_round_async : PacketCrate → ReadState → M Error Round
  unfolding read_bytes extract_udp_packet
  read_round_async crate_packet state = do
    r ← read_bytes state
    elim r [
      | still_waiting ↦ pure waits
      | closed_session ↦ pure ends
      | got state' data_read ↦ pure (asks state' (ask (extract_udp_packet crate_packet data_read)))
    ]

  -- A round of the task `writer` of udp-echo-async.rs.
  unfoldable pub write_round_async :
      Platform → RandomApi → PacketCrate → NaiveUdpPacket → M Error (Unit {0})
  unfolding generate_random_bytes write_with
  write_round_async p random crate_packet resp =
      write_with (generate_random_bytes p random 2) crate_packet.build
        (λ ip_packet. map_err io (f.write_all ip_packet)) resp

module _ (n : Network) where
  -- `main` of udp-echo-async.rs with its adapter, up to the session. Unlike udp-echo.rs it sets no MTU.
  unfoldable pub configure_async : Adapter → M Error Session
  unfolding netmasks
  configure_async adapter = do
    _ ← running_version n.platform
    _ ← map_err io (run_command n.console (text "netsh") metric_args)
    _ ← map_err io (run_command n.console (text "netsh") address_args)
    set_dns_servers n adapter (v4 (8 ∷ 8 ∷ 8 ∷ 8 ∷ []) ∷ v4 (8 ∷ 8 ∷ 4 ∷ 4 ∷ []) ∷ [])
    v ← addresses_of n adapter
    netmasks n adapter v
    _ ← gateways_of n adapter
    _ ← get_mtu n adapter
    _ ← map_err io (get_active_network_interface_gateways n.platform n.messages n.adapters)
    start_session_on n.platform adapter max_ring_capacity

  -- Its `main` from the first question for the version on.
  unfoldable pub begin_echo_async : Registry → ℕ → M Error Session
  unfolding configure_async or_drop open_or_create
  begin_echo_async registry key_rounds = do
    _ ← attempt (running_version n.platform)
    adapter ←
        open_or_create n.platform n.helper (text "Demo") (text "MyTunnelType")
          (some 2131231231231231231)
    or_drop n registry key_rounds adapter (configure_async adapter)
