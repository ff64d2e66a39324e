-- ===== src/Programs/Async/Handing.antt =====
-- What the crate futures hands on between the programs under examples and a session.
use mathlib.Core.Path.{subst}
use wintun_bindings.AsyncSession.Defs.{ReadState, Executor, ready, poll_write}
use wintun_bindings.AsyncSession.PollRead.Arrivals.{
  poll_read-Hands, Hands-from, Hands, HandsOf, poll_read-HandsOf,
}
use wintun_bindings.Base.{
  ℕ, List, drop, length, ◌≡◌, Outcome, [], ◌≢◌, ◌∷◌, refl, arith, ok, inr, some, ◌++◌, ◌⊎◌, err,
  none, panic, ap, inl, ◌∙◌, sym,
}
use wintun_bindings.Failure.{IoError}
use wintun_bindings.Programs.Async.Polling.{
  Answer, Polls, Writes, answered, some_written, none_written, not_written, again, panicked,
  write_panicked, nothing_left, never_again, poll_write-delivered, still_polling,
}
use wintun_bindings.Session.Arrivals.{arrived}
use wintun_bindings.Session.Packet.{Session}
use wintun_bindings.Session.Stream.{delivered}
use wintun_bindings.System.{Platform, World}

length-nil : {A : Type 0} (xs : List A) → length xs ≡ 0 → xs ≡ []
length-nil [] h = refl
length-nil (y ∷ ys) h = absurd (omega (arith, h))

drop-length : {A : Type 0} (xs : List A) → drop (length xs) xs ≡ []
drop-length [] = refl
drop-length (y ∷ ys) = drop-length ys

module _ (p : Platform) (x : Executor) (s : Session) where
  -- What an awaited read hands out of what has been received; a panic may have lost a packet.
  abbrev pub ReadHands : World → Outcome ⊥ Answer × World → Type 0
  ReadHands w (ok none, w') = Hands p x s w w' none
  ReadHands w (ok (some (state, r)), w') = Hands p x s w w' (some (ready r))
  ReadHands w (err e, w') = ⊥
  ReadHands w (panic, w') =
      (new : List (List ℕ)) × (arrived p s.inner w'.trace ≡ arrived p s.inner w.trace ++ new)

  ReadHands-from :
      (w w₁ : World) (o : Outcome ⊥ Answer × World)
      → arrived p s.inner w₁.trace ≡ arrived p s.inner w.trace
      → ReadHands w₁ o
      → ReadHands w o
  ReadHands-from w w₁ (ok none, w') same h = Hands-from p x s w w₁ w' none same h
  ReadHands-from w w₁ (ok (some (state, r)), w') same h =
      Hands-from p x s w w₁ w' (some (ready r)) same h
  ReadHands-from w w₁ (err e, w') same h = h
  ReadHands-from w w₁ (panic, w') same (new, h) = (new, h ∙ ap (λ xs. xs ++ new) same)

  pub Polls-ReadHands :
      {state : ReadState} {buf : List ℕ} {w : World} {o : Outcome ⊥ Answer × World}
      → Polls p x s state buf w o
      → ReadHands w o
  Polls-ReadHands never_again = refl
  Polls-ReadHands {state} {buf} {w} (answered fuel state' r w' run) =
      poll_read-Hands p x s fuel state buf w w' _ run
  Polls-ReadHands {state} {buf} {w} (again fuel state' w' o run rest) =
      ReadHands-from w w' o (poll_read-Hands p x s fuel state buf w w' _ run) (Polls-ReadHands rest)
  Polls-ReadHands {state} {buf} {w} (still_polling fuel state' w' run) =
      poll_read-Hands p x s fuel state buf w w' _ run
  Polls-ReadHands {state} {buf} {w} (panicked fuel w' run) =
      subst (HandsOf p x s w) run (poll_read-HandsOf p x s fuel state buf w)

  written :
      (buf : List ℕ) (n : ℕ) (w w' : World)
      → poll_write p x s buf w ≡ (ok (ready n), w')
      → (poll_write p x s buf w).0 ≡ ok (ready (length buf))
      → n ≡ length buf
  written buf n w w' run done = ground (arith, run, done)

  Writes-nil :
      {buf : List ℕ} {w : World} {o : Outcome IoError (Unit {0}) × World}
      → Writes p x s buf w o
      → buf ≡ []
      → o ≡ (ok tt, w)
  Writes-nil nothing_left z = refl
  Writes-nil {buf} {w} (some_written n w' o run more rest) z =
      elim (poll_write-delivered p x s buf w) [
        | inl (done, sent) ↦ absurd (more (written buf n w w' run done ∙ ap length z))
        | inr (still, never) ↦ absurd (never n (ap (λ y. y.0) run))
      ]
  Writes-nil (none_written w' e ne run) z = absurd (ne z)
  Writes-nil (not_written w' e ne run) z = absurd (ne z)
  Writes-nil (write_panicked w' ne run) z = absurd (ne z)

  pub Writes-delivered :
      {buf : List ℕ} {w : World} {o : Outcome IoError (Unit {0}) × World}
      → Writes p x s buf w o
      → buf ≢ []
      → ((o.0 ≡ ok tt) × (delivered p s.inner o.1.trace ≡ delivered p s.inner w.trace ++ buf ∷ []))
        ⊎ ((delivered p s.inner o.1.trace ≡ delivered p s.inner w.trace) × (o.0 ≢ ok tt))
  Writes-delivered nothing_left ne = absurd (ne refl)
  Writes-delivered {buf} {w} (some_written n w' o run more rest) ne =
      elim (poll_write-delivered p x s buf w) [
        | inr (still, never) ↦ absurd (never n (ap (λ y. y.0) run))
        | inl (done, sent) ↦
            let all : drop n buf ≡ [] =
              ap (λ k. drop k buf) (written buf n w w' run done) ∙ drop-length buf in
            let over : o ≡ (ok tt, w') = Writes-nil rest all in
            inl (
              ap (λ y. y.0) over,
              ap (λ y. delivered p s.inner y.1.trace) over
                  ∙ (ap (λ y. delivered p s.inner y.1.trace) (sym run) ∙ sent),
            )
      ]
  Writes-delivered {buf} {w} (none_written w' e ne' run) ne =
      elim (poll_write-delivered p x s buf w) [
        | inr (still, never) ↦ absurd (never 0 (ap (λ y. y.0) run))
        | inl (done, sent) ↦ absurd (ne (length-nil buf (sym (written buf 0 w w' run done))))
      ]
  Writes-delivered {buf} {w} (not_written w' e ne' run) ne =
      elim (poll_write-delivered p x s buf w) [
        | inr (still, never) ↦
            inr (ap (λ y. delivered p s.inner y.1.trace) (sym run) ∙ still, λ h. ground (arith, h))
        | inl (done, sent) ↦ absurd (ground (arith, run, done))
      ]
  Writes-delivered {buf} {w} (write_panicked w' ne' run) ne =
      elim (poll_write-delivered p x s buf w) [
        | inr (still, never) ↦
            inr (ap (λ y. delivered p s.inner y.1.trace) (sym run) ∙ still, λ h. ground (arith, h))
        | inl (done, sent) ↦ absurd (ground (arith, run, done))
      ]
