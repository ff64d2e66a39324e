-- ===== src/Programs/Basic.antt =====
-- examples/basic.rs: an adapter that is opened or created, and a thread that reads packets from a
-- session until the program stops.
pub mod Reading
pub mod Opening
use wintun_bindings.Adapter.{Adapter}
use wintun_bindings.Adapter.Lifecycle.{create, open_named, start_session_on, max_ring_capacity}
use wintun_bindings.Adapter.Registry.{Registry, drop_adapter}
use wintun_bindings.Adapter.Settings.{Network}
use wintun_bindings.Base.{ℕ, zero, suc, Bool, Option, none, some, inl, inr, Text, false, true, text}
use wintun_bindings.Failure.{Error}
use wintun_bindings.Ffi.{IpHelper}
use wintun_bindings.Session.Loops.{receive_blocking}
use wintun_bindings.Session.Packet.{Session, drop_packet}
use wintun_bindings.System.{M, ◌>>=◌, ◌>>◌, pure, observe, attempt, Trace, Platform, fail}
use wintun_bindings.Version.{running_version}

module _ (p : Platform) (ip : IpHelper) where
  -- `match Adapter::open(..)` of `main`.
  unfoldable pub open_or_create : Text → Text → Option ℕ → M Error Adapter
  unfolding create open_named
  open_or_create name tunnel_type guid = do
    opened ← attempt (open_named p ip name)
    elim opened [ inr adapter ↦ pure adapter | inl e ↦ create p ip name tunnel_type guid ]

-- `running` is the static `RUNNING`, which another thread sets.
module _ (p : Platform) (running : Trace → Bool) (s : Session) where
  -- The thread `reader`. An error ends its loop. Fuel counts the rounds, and is that of
  -- `receive_blocking`; a result `none` is a thread that goes on.
  unfoldable pub read_packets : ℕ → ℕ → M Error (Option (Unit {0}))
  unfolding receive_blocking drop_packet
  read_packets wait zero = pure none
  read_packets wait (suc fuel) = do
    on ← observe running
    elim on [
      | false ↦ pure (some tt)
      | true ↦ do
        r ← attempt (receive_blocking p s wait)
        elim r [
          | inl e ↦ pure (some tt)
          | inr none ↦ pure none
          | inr (some packet) ↦ do drop_packet p packet; read_packets wait fuel
        ]
    ]

-- The library is loaded. `key_rounds` is the fuel of the loops of `drop_adapter`.
module _ (n : Network) (registry : Registry) (key_rounds : ℕ) where
  -- A `?` of `main` after the adapter is there, which is dropped on an error.
  unfoldable pub or_drop : {A : Type 0} → Adapter → M Error A → M Error A
  or_drop adapter call = do
    r ← attempt call
    elim r [
      | inr a ↦ pure a
      | inl e ↦ do _ ← attempt (drop_adapter n registry key_rounds adapter); fail e
    ]

  -- `main`, from the first question for the version to the start of the session.
  unfoldable pub begin : M Error Session
  unfolding open_or_create or_drop
  begin = do
    _ ← attempt (running_version n.platform)
    adapter ← open_or_create n.platform n.helper (text "Demo") (text "Example") none
    _ ← or_drop adapter (running_version n.platform)
    or_drop adapter (start_session_on n.platform adapter max_ring_capacity)
