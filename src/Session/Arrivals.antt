-- ===== src/Session/Arrivals.antt =====
-- What a session has received, read off the calls made so far: the bytes of each packet when it was
-- received, oldest first.
use wintun_bindings.Base.{
  none, some, ℕ, List, ◌∷◌, ◌≡◌, Bool-cases, Outcome, arith, ◌==◌, Option, inl, if◌then◌else◌, ◌&&◌,
  inr, not, ok, ◌++◌, [], ◌⊎◌, ◌≢◌, panic, ◌∙◌, sym, ap, suc, zero, refl, err,
}
use wintun_bindings.Failure.{Error}
use wintun_bindings.Session.Calls.{try_receive, wait_read}
use wintun_bindings.Session.Loops.{receive_blocking, receive_tries}
use wintun_bindings.Session.Packet.{Session, Packet}
use wintun_bindings.Session.Stream.{delivered}
use wintun_bindings.System.{
  Platform, Trace, Leaves, World, receive_packet, slice, run-cases, M, ◌>>=◌, ◌>>◌, pure,
  Leaves->>=, Leaves-pure, Leaves-or_then,
}
use mathlib.Core.List.{append-nil}
use mathlib.Core.Path.{subst}

module _ (p : Platform) (h : ℕ) where
  unfoldable pub arrived : Trace → List (List ℕ)
  arrived [] = []
  arrived (receive_packet k ∷ t) =
      let before = arrived t in
      let r = p.receive_packet t k in
      if (k == h) && not (r.address == 0)
      then before ++ slice p (receive_packet k ∷ t) r.address r.size ∷ []
      else before
  arrived (c ∷ t) = arrived t

module _ (p : Platform) (s : Session) where
  -- A run that receives: the packet that it gives is the one that has arrived in addition. If it gives
  -- none, none has arrived, unless it panics.
  abbrev pub Receives : World → Outcome Error (Option Packet) × World → Type 0
  Receives w r =
      ((packet : Packet) × (r.0 ≡ ok (some packet))
        × (arrived p s.inner r.1.trace
            ≡ arrived p s.inner w.trace ++ slice p r.1.trace packet.address packet.size ∷ []))
      ⊎ (((packet : Packet) → r.0 ≢ ok (some packet))
          × (r.0 ≢ panic → arrived p s.inner r.1.trace ≡ arrived p s.inner w.trace)
          × (new : List (List ℕ)) × (arrived p s.inner r.1.trace
              ≡ arrived p s.inner w.trace ++ new))

  pub try_receive-Receives : (w : World) → Receives w (try_receive p s w)
  unfolding try_receive arrived
  try_receive-Receives w = elim (run-cases (try_receive p s w)) [
    | inl (none, w', r) ↦ inr (
      λ packet. ground (arith, r),
      λ calm. ground (arith, r),
      [],
      ground (arith, r, append-nil (arrived p s.inner w.trace)),
    )
    | inl (some packet, w', r) ↦ inl (packet, ground (arith, r), ground (arith, r))
    | inr (inl (e, w', r)) ↦ inr (
      λ packet. ground (arith, r),
      λ calm. ground (arith, r),
      [],
      ground (arith, r, append-nil (arrived p s.inner w.trace)),
    )
    | inr (inr (w', r)) ↦
        let (new, more) = panicked w' r in
        inr (λ packet. ground (arith, r), λ calm. absurd (calm (ground (arith, r))), new, more)
  ]
    where
      panicked :
          (w' : World)
          → try_receive p s w ≡ (panic, w')
          → (new : List (List ℕ)) × (arrived p s.inner (try_receive p s w).1.trace
              ≡ arrived p s.inner w.trace ++ new)
      panicked w' r = elim (Bool-cases ((p.receive_packet w.trace s.inner).address == 0)) [
        | inl missing ↦ ([], ground (arith, r, missing, append-nil (arrived p s.inner w.trace)))
        | inr there ↦ (
          slice p (receive_packet s.inner ∷ w.trace) (p.receive_packet w.trace s.inner).address
                (p.receive_packet w.trace s.inner).size
              ∷ [],
          ground (arith, r, there),
        )
      ]

  arrived-wait_read :
      (w : World) → arrived p s.inner (wait_read p s w).1.trace ≡ arrived p s.inner w.trace
  unfolding wait_read arrived
  arrived-wait_read w = ground arith

  delivered-try_receive : Leaves (delivered p s.inner) (try_receive p s)
  unfolding Leaves try_receive delivered
  delivered-try_receive w = ground arith

  delivered-wait_read : Leaves (delivered p s.inner) (wait_read p s)
  unfolding Leaves wait_read delivered
  delivered-wait_read w = ground arith

  -- What matters of the world before is what has arrived.
  Receives-from :
      (w w₁ : World) (r : Outcome Error (Option Packet) × World)
      → arrived p s.inner w₁.trace ≡ arrived p s.inner w.trace
      → Receives w₁ r
      → Receives w r
  Receives-from w w₁ r same (inl (packet, got, more)) =
      inl (
        packet,
        got,
        more ∙ ap (λ xs. xs ++ slice p r.1.trace packet.address packet.size ∷ []) same,
      )
  Receives-from w w₁ r same (inr (never, calm, new, more)) =
      inr (never, λ ne. calm ne ∙ same, new, more ∙ ap (λ xs. xs ++ new) same)

  nothing-Receives :
      (w : World) (r : Outcome Error (Option Packet) × World)
      → ((packet : Packet) → r.0 ≢ ok (some packet))
      → arrived p s.inner r.1.trace ≡ arrived p s.inner w.trace
      → Receives w r
  nothing-Receives w r never same =
      inr (never, λ ne. same, [], same ∙ sym (append-nil (arrived p s.inner w.trace)))

  pub Receives-none :
      (w w₁ : World)
      → Receives w (ok none, w₁)
      → arrived p s.inner w₁.trace ≡ arrived p s.inner w.trace
  Receives-none w w₁ (inl (packet, got, more)) = absurd (ground (arith, got))
  Receives-none w w₁ (inr (never, calm, new, more)) = calm (ground arith)

  pub Receives-some :
      (w w₁ : World) (packet : Packet)
      → Receives w (ok (some packet), w₁)
      → arrived p s.inner w₁.trace
        ≡ arrived p s.inner w.trace ++ slice p w₁.trace packet.address packet.size ∷ []
  Receives-some w w₁ packet (inl (packet', got, more)) = ground (arith, got, more)
  Receives-some w w₁ packet (inr (never, calm, new, more)) = absurd (never packet (refl))

  pub Receives-err :
      (w w₁ : World) (e : Error)
      → Receives w (err e, w₁)
      → arrived p s.inner w₁.trace ≡ arrived p s.inner w.trace
  Receives-err w w₁ e (inl (packet, got, more)) = absurd (ground (arith, got))
  Receives-err w w₁ e (inr (never, calm, new, more)) = calm (ground arith)

  pub Receives-panic :
      (w w₁ : World)
      → Receives w (panic, w₁)
      → (new : List (List ℕ)) × (arrived p s.inner w₁.trace ≡ arrived p s.inner w.trace ++ new)
  Receives-panic w w₁ (inl (packet, got, more)) = absurd (ground (arith, got))
  Receives-panic w w₁ (inr (never, calm, new, more)) = (new, more)

  -- What is received by the first of two runs, and by the second where the first gives nothing.
  or_then-Receives :
      (m k : M Error (Option Packet)) (w : World)
      → Receives w (m w)
      → ((w₁ : World) → Receives w₁ (k w₁))
      → Receives w (
          (m >>= λ r. elim r as (λ _. M Error (Option Packet)) [
            | some packet ↦ pure (some packet)
            | none ↦ k
          ])
            w)
  or_then-Receives m k w first second = elim (run-cases (m w)) [
    | inl (some packet, w₁, r) ↦ rw r (subst (Receives w) r first)
    | inl (none, w₁, r) ↦
        rw r
          (Receives-from w w₁ (k w₁) (Receives-none w w₁ (subst (Receives w) r first)) (second w₁))
    | inr (inl (e, w₁, r)) ↦ rw r (subst (Receives w) r first)
    | inr (inr (w₁, r)) ↦ rw r (subst (Receives w) r first)
  ]

  waiting-Receives :
      (k : M Error (Option Packet)) (w : World)
      → ((w₁ : World) → Receives w₁ (k w₁))
      → Receives w ((wait_read p s >> k) w)
  waiting-Receives k w next =
      let still = arrived-wait_read w in
      elim (run-cases (wait_read p s w)) [
        | inl (tt, w₁, r) ↦ rw r (
            Receives-from w w₁ (k w₁) (ap (λ x. arrived p s.inner x.1.trace) (sym r) ∙ still)
              (next w₁))
        | inr (inl (e, w₁, r)) ↦ rw r (
            nothing-Receives w (err e, w₁) (λ packet. ground arith)
              (ap (λ x. arrived p s.inner x.1.trace) (sym r) ∙ still))
        | inr (inr (w₁, r)) ↦ rw r (
            nothing-Receives w (panic, w₁) (λ packet. ground arith)
              (ap (λ x. arrived p s.inner x.1.trace) (sym r) ∙ still))
      ]

  receive_tries-Receives : (n : ℕ) (w : World) → Receives w (receive_tries p s n w)
  unfolding receive_tries
  receive_tries-Receives zero w = nothing-Receives w (ok none, w) (λ packet. ground arith) refl
  receive_tries-Receives (suc n) w =
      or_then-Receives (try_receive p s) (receive_tries p s n) w (try_receive-Receives w)
        (receive_tries-Receives n)

  pub receive_blocking-Receives : (fuel : ℕ) (w : World) → Receives w (receive_blocking p s fuel w)
  unfolding receive_blocking
  receive_blocking-Receives zero w = nothing-Receives w (ok none, w) (λ packet. ground arith) refl
  receive_blocking-Receives (suc fuel) w =
      or_then-Receives (receive_tries p s 5) (wait_read p s >> receive_blocking p s fuel) w
        (receive_tries-Receives 5 w)
        (λ w₁. waiting-Receives (receive_blocking p s fuel) w₁ (receive_blocking-Receives fuel))

  delivered-receive_tries : (n : ℕ) → Leaves (delivered p s.inner) (receive_tries p s n)
  unfolding receive_tries
  delivered-receive_tries zero = Leaves-pure (delivered p s.inner) Error none
  delivered-receive_tries (suc n) =
      Leaves-or_then (delivered p s.inner) (try_receive p s) (receive_tries p s n)
        delivered-try_receive (delivered-receive_tries n)

  pub delivered-receive_blocking :
      (fuel : ℕ) → Leaves (delivered p s.inner) (receive_blocking p s fuel)
  unfolding receive_blocking
  delivered-receive_blocking zero = Leaves-pure (delivered p s.inner) Error none
  delivered-receive_blocking (suc fuel) =
      Leaves-or_then (delivered p s.inner) (receive_tries p s 5)
        (wait_read p s >> receive_blocking p s fuel) (delivered-receive_tries 5)
        (Leaves->>= (delivered p s.inner) (wait_read p s) (λ _. receive_blocking p s fuel)
          delivered-wait_read (λ _. delivered-receive_blocking fuel))
