-- ===== src/AsyncSession/PollRead/Arrivals.antt =====
-- What `poll_read` of src/async_session.rs hands out of what the session has received.
use wintun_bindings.AsyncSession.Defs.{
  stop_shutdown, stop_ready, ReadState, Executor, spawn_wait, copy_out, Poll, ready, pending, idle,
  waiting, closed, wait_for_read, TaskPoll, task_done, task_pending,
}
use wintun_bindings.AsyncSession.PollRead.{
  idle_turn, Turn, finish, poll_read, turn, waiting_turn, go_on, polled_turn,
}
use wintun_bindings.Base.{
  ℕ, zero, suc, refl, Option, ◌≢◌, panic, ◌≡◌, List, arith, ◌⊎◌, ok, inl, some, ◌++◌, inr, text,
  take, ◌∷◌, Bool-cases, ltb, [], none, length, drop, Outcome, err, ap, ◌∙◌, sym,
  take-append_length, Option-cases,
}
use wintun_bindings.Failure.{into_io, IoError, message, other}
use wintun_bindings.Session.Arrivals.{
  arrived, Receives-some, Receives, try_receive-Receives, Receives-none, Receives-err,
  Receives-panic,
}
use wintun_bindings.Session.Calls.{try_receive}
use wintun_bindings.Session.Packet.{Session, Packet, receive_packet_kind}
use wintun_bindings.Session.Ring.Balance.{held-try_receive}
use wintun_bindings.System.{
  M, attempt, poll_task, Platform, World, slice, ◌>>=◌, run-cases, length-slice,
}
use mathlib.Core.Path.{subst}
use mathlib.Core.List.{append-nil}

module _ (p : Platform) (x : Executor) (s : Session) where
  -- A result against what has arrived before and after: bytes that are read are one packet that has
  -- arrived in addition, or there are none; an error may have lost a packet; otherwise none has arrived.
  abbrev pub Hands : World → World → Option (Poll (IoError ⊎ (ℕ × List ℕ))) → Type 0
  Hands w w' none = arrived p s.inner w'.trace ≡ arrived p s.inner w.trace
  Hands w w' (some pending) = arrived p s.inner w'.trace ≡ arrived p s.inner w.trace
  Hands w w' (some (ready (inl e))) =
      (new : List (List ℕ)) × (arrived p s.inner w'.trace ≡ arrived p s.inner w.trace ++ new)
  Hands w w' (some (ready (inr (len, buf)))) =
      (arrived p s.inner w'.trace ≡ arrived p s.inner w.trace ++ take len buf ∷ [])
      ⊎ ((len ≡ 0) × (arrived p s.inner w'.trace ≡ arrived p s.inner w.trace))

  copied-arrives :
      (packet : Packet) (buf : List ℕ) (w : World)
      → packet.kind ≡ receive_packet_kind
      → let r = copy_out p x s {E = ⊥} packet buf w in
        (arrived p s.inner r.1.trace ≡ arrived p s.inner w.trace)
        × ((r.0 ≡ ok (inl (message other (text "Buffer too small"))))
            ⊎ ((rest : List ℕ) × (r.0
                  ≡ ok (inr (packet.size, slice p w.trace packet.address packet.size ++ rest)))))
  unfolding copy_out arrived
  copied-arrives packet buf w k = elim (Bool-cases (ltb (length buf) packet.size)) [
    | inl long ↦ (ground (arith, long, k), inl (ground (arith, long, k)))
    | inr fits ↦ (ground (arith, fits, k), inr (drop packet.size buf, ground (arith, fits, k)))
  ]

  spawn_wait-arrives :
      (w : World) → arrived p s.inner (spawn_wait p x s w).1.trace ≡ arrived p s.inner w.trace
  unfolding spawn_wait arrived
  spawn_wait-arrives w = ground arith

  spawn_wait-calm : (w : World) → (spawn_wait p x s w).0 ≢ panic
  unfolding spawn_wait
  spawn_wait-calm w = ground arith

  -- A run of turns of `poll_read`; a panic may have lost a packet.
  abbrev pub HandsOf : World → Outcome ⊥ Turn × World → Type 0
  HandsOf w (ok t, w') = Hands w w' t.result
  HandsOf w (err e, w') = ⊥
  HandsOf w (panic, w') =
      (new : List (List ℕ)) × (arrived p s.inner w'.trace ≡ arrived p s.inner w.trace ++ new)

  copied-Hands :
      (packet : Packet) (buf : List ℕ) (w w₁ : World)
      → packet.kind ≡ receive_packet_kind
      → arrived p s.inner w₁.trace
        ≡ arrived p s.inner w.trace ++ slice p w₁.trace packet.address packet.size ∷ []
      → HandsOf w ((copy_out p x s packet buf >>= λ copied. finish copied idle) w₁)
  copied-Hands packet buf w w₁ k came =
      let r = copy_out p x s {E = ⊥} packet buf w₁ in
      let content = slice p w₁.trace packet.address packet.size in
      let (same, result) = copied-arrives packet buf w₁ k in
      elim result [
        | inl small ↦
            let run : r ≡ (ok (inl (message other (text "Buffer too small"))), r.1) =
              ap (λ o. (o, r.1)) small in
            rw run (content ∷ [], same ∙ came)
        | inr (rest, fits) ↦
            let run : r ≡ (ok (inr (packet.size, content ++ rest)), r.1) =
              ap (λ o. (o, r.1)) fits in
            rw run (
              inl (
                same
                ∙ came
                ∙ ap (λ xs. arrived p s.inner w.trace ++ xs ∷ [])
                    (sym (
                      take-append_length packet.size content rest
                        (length-slice p w₁.trace packet.address packet.size)))))
      ]

  abbrev waited : M ⊥ Turn
  waited =
      attempt (spawn_wait p x s)
      >>= elim [ inl e ↦ finish (inl (into_io e)) idle | inr task ↦ go_on (waiting (some task)) ]

  waited-Hands :
      (w w₁ : World)
      → arrived p s.inner w₁.trace ≡ arrived p s.inner w.trace
      → HandsOf w (waited w₁)
  waited-Hands w w₁ same = elim (run-cases (spawn_wait p x s w₁)) [
    | inl (task, w₂, r) ↦
        rw r (ap (λ y. arrived p s.inner y.1.trace) (sym r) ∙ (spawn_wait-arrives w₁ ∙ same))
    | inr (inl (e, w₂, r)) ↦ rw r (
      [],
      ap (λ y. arrived p s.inner y.1.trace) (sym r)
          ∙ (spawn_wait-arrives w₁ ∙ (same ∙ sym (append-nil (arrived p s.inner w.trace)))),
    )
    | inr (inr (w₂, r)) ↦ absurd (spawn_wait-calm w₁ (ap (λ y. y.0) r))
  ]

  idle_turn-Hands : (buf : List ℕ) (w : World) → HandsOf w (idle_turn p x s buf w)
  unfolding idle_turn
  idle_turn-Hands buf w = elim (run-cases (try_receive p s w)) [
    | inl (some packet, w₁, r) ↦
        let found = held-try_receive p s w packet (ap (λ y. y.0) r) in
        rw r (
          copied-Hands packet buf w w₁ found.1
            (Receives-some p s w w₁ packet (subst (Receives p s w) r (try_receive-Receives p s w))))
    | inl (none, w₁, r) ↦ rw r (
        waited-Hands w w₁
          (Receives-none p s w w₁ (subst (Receives p s w) r (try_receive-Receives p s w))))
    | inr (inl (e, w₁, r)) ↦ rw r (
      [],
      Receives-err p s w w₁ e (subst (Receives p s w) r (try_receive-Receives p s w))
          ∙ sym (append-nil (arrived p s.inner w.trace)),
    )
    | inr (inr (w₁, r)) ↦
        rw r (Receives-panic p s w w₁ (subst (Receives p s w) r (try_receive-Receives p s w)))
  ]

  wait_for_read-still : (result : ℕ) (w : World) → (wait_for_read {E = ⊥} result w).1 ≡ w
  unfolding wait_for_read
  wait_for_read-still result w = ground arith

  polled-Hands :
      (task : ℕ) (polled : TaskPoll) (w w₁ : World)
      → arrived p s.inner w₁.trace ≡ arrived p s.inner w.trace
      → HandsOf w (polled_turn p x s task polled w₁)
  unfolding polled_turn
  polled-Hands task task_pending w w₁ same = same
  polled-Hands task (task_done result) w w₁ same =
      elim (run-cases (wait_for_read {E = ⊥} result w₁)) [
        | inl (stop_shutdown, w₂, r) ↦ rw r (
            ap (λ y. arrived p s.inner y.1.trace) (sym r)
            ∙ (ap (λ v. arrived p s.inner v.trace) (wait_for_read-still result w₁) ∙ same))
        | inl (stop_ready, w₂, r) ↦ rw r (
            ap (λ y. arrived p s.inner y.1.trace) (sym r)
            ∙ (ap (λ v. arrived p s.inner v.trace) (wait_for_read-still result w₁) ∙ same))
        | inr (inl (e, w₂, r)) ↦ absurd e
        | inr (inr (w₂, r)) ↦ rw r (
          [],
          ap (λ y. arrived p s.inner y.1.trace) (sym r)
              ∙ (ap (λ v. arrived p s.inner v.trace) (wait_for_read-still result w₁)
                  ∙ (same ∙ sym (append-nil (arrived p s.inner w.trace)))),
        )
      ]

  waiting_turn-Hands : (task : ℕ) (w : World) → HandsOf w (waiting_turn p x s task w)
  unfolding waiting_turn arrived
  waiting_turn-Hands task w = elim (Bool-cases (x.can_lock w.trace task)) [
    | inr poisoned ↦ rw poisoned ([], sym (append-nil (arrived p s.inner w.trace)))
    | inl locked ↦ rw locked (
        polled-Hands task (x.poll w.trace task) w (record w { trace = poll_task task ∷ w.trace })
          refl)
  ]

  turn-Hands : (state : ReadState) (buf : List ℕ) (w : World) → HandsOf w (turn p x s state buf w)
  unfolding turn
  turn-Hands idle buf w = idle_turn-Hands buf w
  turn-Hands (waiting none) buf w = refl
  turn-Hands (waiting (some task)) buf w = waiting_turn-Hands task w
  turn-Hands closed buf w = inr (refl, refl)

  pub Hands-from :
      (w w₁ w' : World) (o : Option (Poll (IoError ⊎ (ℕ × List ℕ))))
      → arrived p s.inner w₁.trace ≡ arrived p s.inner w.trace
      → Hands w₁ w' o
      → Hands w w' o
  Hands-from w w₁ w' none same h = h ∙ same
  Hands-from w w₁ w' (some pending) same h = h ∙ same
  Hands-from w w₁ w' (some (ready (inl e))) same (new, h) = (new, h ∙ ap (λ xs. xs ++ new) same)
  Hands-from w w₁ w' (some (ready (inr (len, buf)))) same (inl h) =
      inl (h ∙ ap (λ xs. xs ++ take len buf ∷ []) same)
  Hands-from w w₁ w' (some (ready (inr (len, buf)))) same (inr (z, h)) = inr (z, h ∙ same)

  HandsOf-from :
      (w w₁ : World) (r : Outcome ⊥ Turn × World)
      → arrived p s.inner w₁.trace ≡ arrived p s.inner w.trace
      → HandsOf w₁ r
      → HandsOf w r
  HandsOf-from w w₁ (ok t, w') same h = Hands-from w w₁ w' t.result same h
  HandsOf-from w w₁ (err e, w') same h = h
  HandsOf-from w w₁ (panic, w') same (new, h) = (new, h ∙ ap (λ xs. xs ++ new) same)

  pub poll_read-HandsOf :
      (fuel : ℕ) (state : ReadState) (buf : List ℕ) (w : World)
      → HandsOf w (poll_read p x s state buf fuel w)
  unfolding poll_read
  poll_read-HandsOf zero state buf w = refl
  poll_read-HandsOf (suc fuel) state buf w = elim (run-cases (turn p x s state buf w)) [
    | inl (t, w₁, r) ↦
        let got = subst (HandsOf w) r (turn-Hands state buf w) in
        elim (Option-cases t.result) [
          | inl z ↦
              rw (r, z)
                (HandsOf-from w w₁ (poll_read p x s t.read_state buf fuel w₁)
                  (subst (Hands w w₁) z got) (poll_read-HandsOf fuel t.read_state buf w₁))
          | inr (o, z) ↦ rw (r, z) got
        ]
    | inr (inl (e, w₁, r)) ↦ absurd e
    | inr (inr (w₁, r)) ↦ rw r (subst (HandsOf w) r (turn-Hands state buf w))
  ]

  -- What a `poll_read` hands out is what the session has received, a packet whole and in turn: if it
  -- reads some bytes, these are the one packet that has been received in addition, and if it reads none
  -- because the session is shut down, or is pending, no packet has been received. Only with an error may a
  -- packet be lost.
  pub poll_read-Hands :
      (fuel : ℕ) (state : ReadState) (buf : List ℕ) (w w' : World) (t : Turn)
      → poll_read p x s state buf fuel w ≡ (ok t, w')
      → Hands w w' t.result
  poll_read-Hands fuel state buf w w' t run =
      subst (HandsOf w) run (poll_read-HandsOf fuel state buf w)
