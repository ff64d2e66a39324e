-- ===== src/AsyncSession/Defs/Sending.antt =====
-- `internal_send` of src/async_session.rs against `send` of src/session.rs.
use wintun_bindings.AsyncSession.Defs.{Executor, internal_send}
use wintun_bindings.Base.{List, length, ℕ, ◌^◌, ◌≤◌, ◌%◌, ◌≢◌, ◌≡◌, panic, ◌∷◌, arith, ◌<◌}
use wintun_bindings.Failure.{into_io}
use wintun_bindings.Session.Calls.{send}
use wintun_bindings.Session.Packet.{Session}
use wintun_bindings.Session.Ring.{unsent}
use wintun_bindings.System.{Platform, World, allocate_send_packet}

module _ (p : Platform) (x : Executor) (s : Session) (w : World) where
  -- Up to 65535 bytes `internal_send` and `send` are one, with the same calls and the same result,
  -- if the driver gives an address or sets an error.
  internal_send-eq-send :
      (buf : List ℕ)
      → length buf < 2 ^ 16
      → (p.allocate_send_packet w.trace s.inner (length buf) ≡ 0
          → p.last_error (allocate_send_packet s.inner (length buf) ∷ w.trace) ≢ 0)
      → internal_send p x s buf w ≡ send p s buf w
  unfolding internal_send send into_io
  internal_send-eq-send buf h sets =
      let short : length buf % 2 ^ 16 ≡ length buf = omega arith in
      let fits : length buf % 2 ^ 32 ≡ length buf = omega arith in ground (arith, short, fits, sets)

  -- A buffer of 65536 bytes or more makes `internal_send` panic, once the driver has given an address
  -- for the cut length, and the packet that it allocated is left unsent.
  pub internal_send-long :
      (buf : List ℕ)
      → 2 ^ 16 ≤ length buf
      → p.allocate_send_packet w.trace s.inner (length buf % 2 ^ 16) ≢ 0
      → ((internal_send p x s buf w).0 ≡ panic)
        × (unsent p s.inner (internal_send p x s buf w).1.trace
            ≡ p.allocate_send_packet w.trace s.inner (length buf % 2 ^ 16)
              ∷ unsent p s.inner w.trace)
  unfolding internal_send unsent
  internal_send-long buf h ne =
      let cut : length buf % 2 ^ 16 ≢ length buf = omega arith in ground (arith, cut)
