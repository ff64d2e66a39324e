-- ===== src/Programs/Capture.antt =====
-- examples/wireshark.rs: the thread that writes the packets of a session to a file, and the thread that
-- sends one packet a second.
pub mod Balanced
use wintun_bindings.Base.{
  ℕ, Text, Bool, ◌⊎◌, List, Option, none, inl, inr, suc, false, some, ◌+◌, ◌%◌, ◌^◌, zero, true,
  text, ◌++◌,
}
use wintun_bindings.Failure.{Error, string, system_time_error}
use wintun_bindings.Session.Loops.{receive_blocking}
use wintun_bindings.Session.Packet.{Session, bytes, drop_packet, Packet}
use wintun_bindings.System.{Platform, Trace, M, ◌>>=◌, pure, observe, ◌>>◌, attempt, from_result}

-- The clock, whose error is that of a time before 1970, and the crate `pcap_file`, which writes a packet.
pub record Pcap : Type 0 where
  pub since_epoch : Trace → Text ⊎ ℕ
  pub write_packet : Trace → ℕ → List ℕ → Text ⊎ Unit {0}

-- The error of a packet that cannot be written.
abbrev pub or_failed : Text ⊎ Unit {0} → Error ⊎ Unit {0}
or_failed (inl e) = inl (string (text "Failed to write packet to pcap: " ++ e))
or_failed (inr done) = inr done

module _ (p : Platform) (running : Trace → Bool) (s : Session) where
  -- A packet that was read is written, and dropped whether that succeeds or not.
  unfoldable pub write_down : Pcap → Packet → M Error (Unit {0})
  unfolding bytes drop_packet
  write_down pcap packet = do
    content ← bytes p packet
    now ← observe pcap.since_epoch
    written ← elim now as (λ _. M Error (Error ⊎ Unit {0})) [
      | inl e ↦ pure (inl (system_time_error e))
      | inr time ↦ observe (λ t. or_failed (pcap.write_packet t time content))
    ]
    drop_packet p packet
    from_result written

  -- The thread `reader`, with the count of packets as the bits of an `i32`, which wraps around in a
  -- release build. Fuel counts the rounds, and is that of `receive_blocking`; a result `none` is a
  -- thread that goes on.
  unfoldable pub capture : Pcap → ℕ → ℕ → ℕ → M Error (Option ℕ)
  unfolding receive_blocking write_down
  capture pcap wait zero packet_count = pure none
  capture pcap wait (suc fuel) packet_count = do
    on ← observe running
    elim on [
      | false ↦ pure (some packet_count)
      | true ↦ do
        r ← attempt (receive_blocking p s wait)
        elim r [
          | inl e ↦ pure (some packet_count)
          | inr none ↦ pure none
          | inr (some packet) ↦ do
            write_down pcap packet
            capture pcap wait fuel ((packet_count + 1) % 2 ^ 32)
        ]
    ]
