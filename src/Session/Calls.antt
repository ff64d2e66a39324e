-- ===== src/Session/Calls.antt =====
-- src/session.rs: the calls that do not block, and the wait for the next packet.
pub mod Delivery
pub mod Agreement
use wintun_bindings.Base.{
  ℕ, ◌%◌, ◌^◌, Bool, true, false, ◌&&◌, Option, none, some, List, [], ◌∷◌, ◌++◌, text, ok, ◌==◌,
  ltb, if◌then◌else◌, length, drop,
}
use wintun_bindings.Failure.{
  IoError, Error, io, shutting_down, from_raw_os_error, from_kind, message, would_block,
  invalid_input,
}
use wintun_bindings.Session.Packet.{
  Session, Kind, send_packet_pending, send_packet_sent, receive_packet_kind, Packet, drop_packet,
}
use wintun_bindings.System.{
  ◌>>=◌, ◌>>◌, M, pure, fail, panics, invoke, tell, observe, attempt, write_cell, Platform,
  Received, slice, copy_to, allocate_send_packet, send_packet, receive_packet,
  release_receive_packet, get_read_wait_event, wait_for_multiple_objects, end_session,
}
use wintun_bindings.Util.LastError.{get_last_error, fail_with_last_error}
use wintun_bindings.Handle

-- Codes of the Windows API.
abbrev pub error_no_more_items : ℕ
error_no_more_items = 259

abbrev pub wait_failed : ℕ
wait_failed = 0xffff_ffff

abbrev pub is_pending : Kind → Bool
is_pending send_packet_pending = true
is_pending _ = false

module _ (p : Platform) where
  -- The size is a `u16`.
  unfoldable pub allocate : Session → ℕ → M Error Packet
  unfolding fail_with_last_error
  allocate s size = do
    address ←
        invoke (allocate_send_packet s.inner size) (λ t. p.allocate_send_packet t s.inner size)
    if address == 0
        then fail_with_last_error p
        else pure
            (record { kind = send_packet_pending; address = address; size = size; session = s })

  -- `send_packet`, which consumes the packet. A failed assertion drops it and panics.
  unfoldable pub send_packet_of : {E : Type 0} → Session → Packet → M E (Unit {0})
  unfolding drop_packet
  send_packet_of s packet =
      if is_pending packet.kind
      then (do
        tell (send_packet s.inner packet.address)
        drop_packet p (record packet { kind = send_packet_sent }))
      else do drop_packet p packet; panics

  -- The answer of `WintunReceivePacket`, with the debug assertion on its size.
  unfoldable pub receive : {E : Type 0} → Session → M E Received
  receive s = do
    r ← invoke (receive_packet s.inner) (λ t. p.receive_packet t s.inner)
    if p.debug_assertions && ltb 65535 r.size then panics else pure r

  unfoldable pub try_receive : Session → M Error (Option Packet)
  unfolding receive
  try_receive s = do
    r ← receive s
    if r.address == 0
        then (do
          e ← observe p.last_error
          if e == error_no_more_items then pure none else fail (io (from_raw_os_error e)))
        else pure (
            some (record {
              kind = receive_packet_kind;
              address = r.address;
              size = r.size;
              session = s;
            }))

  -- `OnceLock::get_or_init`, by what the cell holds.
  unfoldable pub init_read_event : Session → Option ℕ → M Error ℕ
  init_read_event s (some event) = pure event
  init_read_event s none = do
    event ← invoke (get_read_wait_event s.inner) (λ t. p.get_read_wait_event t s.inner)
    λ w. (ok event, record w { cell = write_cell w.cell s.read_event event })

  unfoldable pub read_wait_event : Session → M Error ℕ
  unfolding init_read_event
  read_wait_event s w = init_read_event s (w.cell s.read_event) w

  unfoldable pub stop_reason : ℕ → M Error (Unit {0})
  unfolding fail_with_last_error
  stop_reason result =
      if result == wait_failed
      then fail_with_last_error p
      else if result == 0
      then pure tt
      else if result == 1
      then fail shutting_down
      else panics

  unfoldable pub wait_read : Session → M Error (Unit {0})
  unfolding read_wait_event stop_reason
  wait_read s = do
    event ← read_wait_event s
    let handles = event ∷ s.shutdown_event ∷ []
    result ← invoke (wait_for_multiple_objects handles) (λ t. p.wait_for_multiple_objects t handles)
    stop_reason result

  unfoldable pub shutdown : Session → M Error (Unit {0})
  unfolding Handle.signal
  shutdown s = Handle.signal p s.shutdown_event

  -- `recv` into a buffer: the number of bytes, and the buffer with those bytes in front.
  unfoldable pub take_received : Session → List ℕ → Received → M IoError (ℕ × List ℕ)
  take_received s buf r =
      if ltb (length buf) r.size
      then (do
        tell (release_receive_packet s.inner r.address)
        fail (message invalid_input (text "destination buffer too small")))
      else do
        bytes ← observe (λ t. slice p t r.address r.size)
        tell (release_receive_packet s.inner r.address)
        pure (r.size, bytes ++ drop r.size buf)

  unfoldable pub try_recv : Session → List ℕ → M IoError (ℕ × List ℕ)
  unfolding receive take_received
  try_recv s buf = do
    r ← receive s
    if r.address == 0
        then (do
          e ← observe p.last_error
          if e == error_no_more_items
              then fail (from_kind would_block)
              else fail (from_raw_os_error e))
        else take_received s buf r

  -- `copy_nonoverlapping` to an address. To write bytes to address 0 is an access violation, which ends
  -- the program, as a panic does.
  unfoldable pub copy_nonoverlapping : ℕ → List ℕ → M IoError (Unit {0})
  copy_nonoverlapping address buf =
      if (address == 0) && ltb 0 (length buf) then panics else tell (copy_to address buf)

  -- The size is cast to `u32`. A null address is refused only if the last error is not 0.
  unfoldable pub send : Session → List ℕ → M IoError ℕ
  unfolding get_last_error copy_nonoverlapping
  send s buf = do
    let size = length buf % 2 ^ 32
    address ←
        invoke (allocate_send_packet s.inner size) (λ t. p.allocate_send_packet t s.inner size)
    if address == 0 then (do _ ← get_last_error p; pure tt) else pure tt
    copy_nonoverlapping address buf
    tell (send_packet s.inner address)
    pure (length buf)

  -- `impl Drop for Session`, and of the event that the session shares.
  unfoldable pub drop_session : {E : Type 0} → Session → M E (Unit {0})
  unfolding shutdown Handle.drop_event
  drop_session s = do
    _ ← attempt (shutdown s)
    tell (end_session s.inner)
    Handle.drop_event p s.shutdown_event
