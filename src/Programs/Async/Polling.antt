-- ===== src/Programs/Async/Polling.antt =====
-- What the crate futures promises of `read`, and what follows for a session that is read through it.
use wintun_bindings.AsyncSession.Defs.{ReadState, Executor, ready, pending, poll_write}
use wintun_bindings.AsyncSession.PollRead.{poll_read}
use wintun_bindings.AsyncSession.PollRead.Endings.{held-poll_read}
use wintun_bindings.Base.{
  ℕ, List, Outcome, Option, ◌⊎◌, ok, ◌≢◌, panic, none, ◌≡◌, ap, some, sym, ◌∙◌, arith, refl, [],
  drop, length, err, ◌++◌, ◌∷◌, ◌%◌, ◌^◌, Bool-cases, ◌==◌, inl, inr,
}
use wintun_bindings.Failure.{IoError}
use wintun_bindings.Programs.Async.{Futures}
use wintun_bindings.Session.Calls.Delivery.{slice-copy_to}
use wintun_bindings.Session.Packet.{Session}
use wintun_bindings.Session.Ring.{held}
use wintun_bindings.Session.Stream.{delivered}
use wintun_bindings.System.{Platform, World, allocate_send_packet, slice, copy_to}

abbrev pub Answer : Type 0
Answer = Option (ReadState × (IoError ⊎ (ℕ × List ℕ)))

module _ (p : Platform) (x : Executor) (s : Session) where
  -- The results of an awaited `read`. It polls the session, with any number of turns of the loop of
  -- `poll_read`, and polls it again from where a pending poll has left it, or is never polled again.
  pub data Polls : ReadState → List ℕ → World → Outcome ⊥ Answer × World → Type 0 where
    never_again : {state : ReadState} {buf : List ℕ} {w : World} → Polls state buf w (ok none, w)
    answered :
        {state : ReadState} {buf : List ℕ} {w : World} (fuel : ℕ) (state' : ReadState)
        (r : IoError ⊎ (ℕ × List ℕ)) (w' : World)
        → poll_read p x s state buf fuel w
          ≡ (ok (record { result = some (ready r); read_state = state' }), w')
        → Polls state buf w (ok (some (state', r)), w')
    again :
        {state : ReadState} {buf : List ℕ} {w : World} (fuel : ℕ) (state' : ReadState) (w' : World)
        (o : Outcome ⊥ Answer × World)
        → poll_read p x s state buf fuel w
          ≡ (ok (record { result = some pending; read_state = state' }), w')
        → Polls state' buf w' o
        → Polls state buf w o
    -- The loop of the poll goes on.
    still_polling :
        {state : ReadState} {buf : List ℕ} {w : World} (fuel : ℕ) (state' : ReadState) (w' : World)
        → poll_read p x s state buf fuel w
          ≡ (ok (record { result = none; read_state = state' }), w')
        → Polls state buf w (ok none, w')
    panicked :
        {state : ReadState} {buf : List ℕ} {w : World} (fuel : ℕ) (w' : World)
        → poll_read p x s state buf fuel w ≡ (panic, w')
        → Polls state buf w (panic, w')

  -- `read` does nothing but poll.
  abbrev pub IsPolling : Futures → Type 0
  IsPolling f =
      (state : ReadState) (buf : List ℕ) (w : World) → Polls state buf w (f.read state buf w)

  pub held-Polls :
      {state : ReadState} {buf : List ℕ} {w : World} {o : Outcome ⊥ Answer × World}
      → Polls state buf w o
      → o.0 ≢ panic
      → held p s.inner o.1.trace ≡ held p s.inner w.trace
  held-Polls never_again calm = refl
  held-Polls {state} {buf} {w} (answered fuel state' r w' run) calm =
      ap (λ y. held p s.inner y.1.trace) (sym run)
      ∙ held-poll_read p x s s.inner fuel state buf w (λ h. ground (arith, h, run))
  held-Polls {state} {buf} {w} (again fuel state' w' o run rest) calm =
      held-Polls rest calm
      ∙ (ap (λ y. held p s.inner y.1.trace) (sym run)
          ∙ held-poll_read p x s s.inner fuel state buf w (λ h. ground (arith, h, run)))
  held-Polls {state} {buf} {w} (still_polling fuel state' w' run) calm =
      ap (λ y. held p s.inner y.1.trace) (sym run)
      ∙ held-poll_read p x s s.inner fuel state buf w (λ h. ground (arith, h, run))
  held-Polls (panicked fuel w' run) calm = absurd (calm refl)

  -- The results of an awaited `write_all`: as long as there is something left, the session is polled to
  -- write it, and what was written is taken off.
  pub data Writes : List ℕ → World → Outcome IoError (Unit {0}) × World → Type 0 where
    nothing_left : {w : World} → Writes [] w (ok tt, w)
    some_written :
        {buf : List ℕ} {w : World} (n : ℕ) (w' : World) (o : Outcome IoError (Unit {0}) × World)
        → poll_write p x s buf w ≡ (ok (ready n), w')
        → n ≢ 0
        → Writes (drop n buf) w' o
        → Writes buf w o
    none_written :
        {buf : List ℕ} {w : World} (w' : World) (e : IoError)
        → buf ≢ []
        → poll_write p x s buf w ≡ (ok (ready 0), w')
        → Writes buf w (err e, w')
    not_written :
        {buf : List ℕ} {w : World} (w' : World) (e : IoError)
        → buf ≢ []
        → poll_write p x s buf w ≡ (err e, w')
        → Writes buf w (err e, w')
    write_panicked :
        {buf : List ℕ} {w : World} (w' : World)
        → buf ≢ []
        → poll_write p x s buf w ≡ (panic, w')
        → Writes buf w (panic, w')

  -- `write_all` does nothing but poll.
  abbrev pub IsWriting : Futures → Type 0
  IsWriting f = (buf : List ℕ) (w : World) → Writes buf w (f.write_all buf w)

  -- A poll to write sends the whole buffer, or nothing.
  pub poll_write-delivered :
      (buf : List ℕ) (w : World)
      → let r = poll_write p x s buf w in
        ((r.0 ≡ ok (ready (length buf)))
          × (delivered p s.inner r.1.trace ≡ delivered p s.inner w.trace ++ buf ∷ []))
        ⊎ ((delivered p s.inner r.1.trace ≡ delivered p s.inner w.trace)
            × ((n : ℕ) → r.0 ≢ ok (ready n)))
  unfolding poll_write delivered
  poll_write-delivered buf w =
      let n = length buf % 2 ^ 16 in
      let a = p.allocate_send_packet w.trace s.inner n in
      let asked = allocate_send_packet s.inner n ∷ w.trace in
      elim (Bool-cases (a == 0)) [
        | inl missing ↦ inr (ground (arith, missing), λ k. ground (arith, missing))
        | inr there ↦ elim (Bool-cases (n == length buf)) [
          | inr cut ↦ inr (ground (arith, there, cut), λ k. ground (arith, there, cut))
          | inl whole ↦
              let same : n ≡ length buf = ground (arith, whole) in
              let memory : slice p (copy_to a buf ∷ asked) a n ≡ buf =
                ap (slice p (copy_to a buf ∷ asked) a) same ∙ slice-copy_to p asked a buf in
              inl (ground (arith, there, whole), ground (arith, there, whole, memory))
        ]
      ]
