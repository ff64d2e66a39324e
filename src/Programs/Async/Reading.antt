-- ===== src/Programs/Async/Reading.antt =====
-- The packets that the asynchronous readers under examples take are given back.
use wintun_bindings.AsyncSession.Defs.{ReadState, Executor}
use wintun_bindings.Base.{
  ℕ, zero, suc, ◌≢◌, panic, ◌≡◌, inl, some, arith, inr, none, ap, ◌∙◌, Bool, Bool-cases, refl,
}
use wintun_bindings.Programs.Async.{
  still_waiting, closed_session, got, Futures, read_bytes, zeros, read_async, read_round_async,
}
use wintun_bindings.Programs.Async.Polling.{IsPolling, held-Polls}
use wintun_bindings.Programs.Echo.{PacketCrate}
use wintun_bindings.Session.Packet.{Session}
use wintun_bindings.Session.Ring.{held}
use wintun_bindings.System.{Trace, Platform, World, run-cases}

module _ (p : Platform) (x : Executor) (s : Session) (f : Futures) (polls : IsPolling p x s f) where
  -- What is made of a read makes no calls.
  read_bytes-read :
      (state : ReadState) (w : World)
      → let r = f.read state (zeros 1500) w in
        ((read_bytes f state w).1 ≡ r.1) × (r.0 ≡ panic → (read_bytes f state w).0 ≡ panic)
  unfolding read_bytes
  read_bytes-read state w = elim (run-cases (f.read state (zeros 1500) w)) [
    | inl (none, w₁, r) ↦ rw r (refl, λ h. ground (arith, h))
    | inl (some (state', inl e), w₁, r) ↦ rw r (refl, λ h. ground (arith, h))
    | inl (some (state', inr (len, buf)), w₁, r) ↦ rw r (refl, λ h. ground (arith, h))
    | inr (inl (e, w₁, r)) ↦ absurd e
    | inr (inr (w₁, r)) ↦ rw r (refl, λ h. refl)
  ]

  held-read_bytes :
      (state : ReadState) (w : World)
      → (read_bytes f state w).0 ≢ panic
      → held p s.inner (read_bytes f state w).1.trace ≡ held p s.inner w.trace
  held-read_bytes state w calm =
      let (same, panics_too) = read_bytes-read state w in
      ap (λ v. held p s.inner v.trace) same
      ∙ held-Polls p x s (polls state (zeros 1500) w) (λ h. calm (panics_too h))

  pub held-read_round_async :
      (c : PacketCrate) (state : ReadState) (w : World)
      → (read_round_async f c state w).0 ≢ panic
      → held p s.inner (read_round_async f c state w).1.trace ≡ held p s.inner w.trace
  unfolding read_round_async
  held-read_round_async c state w calm = elim (run-cases (read_bytes f state w)) [
    | inl (still_waiting, w₁, r) ↦ ground (arith, r, held-read_bytes state w)
    | inl (closed_session, w₁, r) ↦ ground (arith, r, held-read_bytes state w)
    | inl (got state' data_read, w₁, r) ↦ ground (arith, r, held-read_bytes state w)
    | inr (inl (e, w₁, r)) ↦ ground (arith, r, held-read_bytes state w)
    | inr (inr (w₁, r)) ↦ absurd (ground (arith, r, calm))
  ]

  pub held-read_async :
      (running : Trace → Bool) (state : ReadState) (fuel : ℕ) (w : World)
      → (read_async f running state fuel w).0 ≢ panic
      → held p s.inner (read_async f running state fuel w).1.trace ≡ held p s.inner w.trace
  unfolding read_async
  held-read_async running state zero w calm = refl
  held-read_async running state (suc fuel) w calm = elim (Bool-cases (running w.trace)) [
    | inr off ↦ rw off refl
    | inl on ↦ elim (run-cases (read_bytes f state w)) [
      | inl (still_waiting, w₁, r) ↦ ground (arith, on, r, held-read_bytes state w)
      | inl (closed_session, w₁, r) ↦ ground (arith, on, r, held-read_bytes state w)
      | inl (got state' data_read, w₁, r) ↦
          ground (arith, on, r, held-read_bytes state w, held-read_async running state' fuel w₁)
      | inr (inl (e, w₁, r)) ↦ ground (arith, on, r, held-read_bytes state w)
      | inr (inr (w₁, r)) ↦ absurd (ground (arith, on, r, calm))
    ]
  ]
