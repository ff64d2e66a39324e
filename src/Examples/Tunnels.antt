-- ===== src/Examples/Tunnels.antt =====
-- Runs of examples/wireshark.rs, and the starts of programs.
use wintun_bindings.Adapter.Addresses.{get_name}
use wintun_bindings.Adapter.Lifecycle.{
  open_named, describe_opened, start_session_on, new_session, is_power_of_two, count_ones,
}
use wintun_bindings.Adapter.Registry.{drop_adapter}
use wintun_bindings.Adapter.Settings.{Network}
use wintun_bindings.Base.{
  inl, inr, true, text, ◌≡◌, if◌then◌else◌, err, ◌∷◌, ltb, length, [], refl, arith, ok,
}
use wintun_bindings.Examples.Machine.{adapter, busy, session, no_events}
use wintun_bindings.Examples.Machines.{registry, ends}
use wintun_bindings.Examples.Network.{network}
use wintun_bindings.Failure.{string}
use wintun_bindings.Programs.Async.{begin_echo_async}
use wintun_bindings.Programs.Basic.{begin, open_or_create, or_drop}
use wintun_bindings.Programs.Basic.Opening.{Begun}
use wintun_bindings.Programs.Closing.{run_basic, stop, let_go}
use wintun_bindings.Programs.Configured.{begin_echo}
use wintun_bindings.Programs.Routes.{Shell, routes}
use wintun_bindings.Programs.Tunnel.{
  PingCrate, Surroundings, ping_round, ping_packets, give_back, begin_capture, take_over, Joined,
}
use wintun_bindings.Programs.Tunnel.Pinging.{Pings, ping_packets-Pings}
use wintun_bindings.Programs.Tunnel.Starting.{starting-Begun}
use wintun_bindings.Programs.Tunnel.Undoing.{
  GivesBack, TakesOver, give_back-branches, take_over-branches,
}
use wintun_bindings.Session.Calls.{drop_session, shutdown}
use wintun_bindings.System.{empty_world, Trace}
use wintun_bindings.Util.Guid.{win_guid_to_u128}
use wintun_bindings.Version.{running_version}

-- Every command succeeds.
abbrev shell : Shell
shell = record { run = λ t program args. inr (true, text "Ok.\r\n") }

-- The capture file can be created, and gets its header only if three calls were made at most.
abbrev surroundings : Surroundings
surroundings = record {
  create_file = λ t. inr tt;
  write_header = λ t. if ltb (length t) 4 then inr tt else inl (text "full");
  best_route = λ t. 0;
  next_hop = λ t. 0x0100000a;
}

-- No event can be created, so that no session is started on the adapter.
abbrev eventless : Network
eventless = record network { platform = no_events }

starting-Begun_example :
    Begun eventless.helper empty_world (begin eventless registry 3 empty_world)
    × Begun eventless.helper empty_world (begin_echo eventless registry 3 empty_world)
    × Begun eventless.helper empty_world (begin_echo_async eventless registry 3 empty_world)
    × Begun eventless.helper empty_world
        (begin_capture eventless surroundings shell registry 3 empty_world)
starting-Begun_example =
    starting-Begun eventless registry surroundings shell 2 3 ends (omega arith) empty_world

-- A thread that has ended and returned an error, which `main` drops.
abbrev broken_off : Trace → Joined (Unit {0})
broken_off t = inr (inl (string (text "read")))

has_session : (run_basic network registry 3 (λ t. true) broken_off empty_world).0 ≡ ok tt
unfolding run_basic begin open_or_create or_drop stop let_go open_named describe_opened
    start_session_on new_session drop_session drop_adapter running_version get_name shutdown
    win_guid_to_u128 is_power_of_two count_ones
has_session = refl

take_over-branches_example :
    TakesOver network surroundings shell
      (routes 12)
      adapter
      empty_world
      (take_over network surroundings shell (routes 12) adapter empty_world)
take_over-branches_example =
    take_over-branches network surroundings shell (routes 12) adapter empty_world

-- The reader has captured three packets.
give_back-branches_example :
    GivesBack busy session shell
      (routes 12)
      (inr (inr 3))
      (inr (inr tt))
      empty_world
      (give_back busy session shell (routes 12) (λ t. inr (inr 3)) (λ t. inr (inr tt)) empty_world)
give_back-branches_example =
    give_back-branches busy session shell (routes 12) (λ t. inr (inr 3)) (λ t. inr (inr tt))
      empty_world

-- A builder that refuses.
abbrev refuses : PingCrate
refuses = record { build_request = λ dest. (inl (text "size"), 0 ∷ []) }

refused : (ping_round busy session refuses empty_world).0 ≡ err (string (text "size"))
unfolding ping_round
refused = refl

ping_packets-Pings_example :
    Pings busy session refuses empty_world
      (ping_packets busy session (λ t. true) refuses 2 empty_world)
ping_packets-Pings_example = ping_packets-Pings busy session refuses (λ t. true) 2 empty_world
