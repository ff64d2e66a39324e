-- ===== src/Session/Packet.antt =====
-- The types of src/session.rs and src/packet.rs, and a packet's bytes and end.
use wintun_bindings.Adapter.{Adapter}
use wintun_bindings.Base.{ℕ, List, ◌==◌, if◌then◌else◌, length}
use wintun_bindings.System.{
  M, pure, panics, tell, observe, Platform, slice, copy_to, release_receive_packet,
}

-- The `OnceLock` of the read event is the cell of that number.
pub record Session : Type 0 where
  pub inner : ℕ
  pub read_event : ℕ
  pub shutdown_event : ℕ
  pub adapter : Adapter

pub data Kind : Type 0 where
  send_packet_pending send_packet_sent receive_packet_kind : Kind

-- `bytes` is the slice of `size` bytes from `address` on.
pub record Packet : Type 0 where
  pub kind : Kind
  pub address : ℕ
  pub size : ℕ
  pub session : Session

module _ (p : Platform) where
  unfoldable pub bytes : {E : Type 0} → Packet → M E (List ℕ)
  bytes packet = observe (λ t. slice p t packet.address packet.size)

  -- `packet.bytes.copy_from_slice(buf)`, which panics unless the lengths agree.
  unfoldable pub copy_from_slice : {E : Type 0} → Packet → List ℕ → M E (Unit {0})
  copy_from_slice packet buf =
      if packet.size == length buf then tell (copy_to packet.address buf) else panics

  -- `impl Drop for Packet`, by the packet's kind.
  unfoldable pub drop_kind : {E : Type 0} → Kind → Packet → M E (Unit {0})
  drop_kind receive_packet_kind packet =
      tell (release_receive_packet packet.session.inner packet.address)
  drop_kind send_packet_pending packet = if p.panic_on_unsent_packets then panics else pure tt
  drop_kind send_packet_sent packet = pure tt

  unfoldable pub drop_packet : {E : Type 0} → Packet → M E (Unit {0})
  unfolding drop_kind
  drop_packet packet = drop_kind packet.kind packet
