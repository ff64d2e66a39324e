-- ===== src/Session/Calls/Delivery.antt =====
-- Sending from a buffer, and the end of a session: src/session.rs.
use wintun_bindings.Base.{
  length-append, ℕ, List, get_elem?, ◌++◌, ◌≡◌, ◌∷◌, ◌+◌, length, ◌%◌, ok, some, [], arith, refl,
  if◌then◌else◌, ◌^◌, ◌==◌, ◌≢◌, err, ◌-◌, ◌⊎◌, Bool-cases, inr, inl, panic,
}
use wintun_bindings.Failure.{Error, from_raw_os_error}
use wintun_bindings.Session.Calls.{drop_session, send}
use wintun_bindings.Session.Packet.{Session}
use wintun_bindings.System.{
  slice, Platform, byte_at, Trace, copy_to, World, allocate_send_packet, end_session, send_packet,
  set_event, close_handle,
}
use mathlib.Core.List.{append_assoc}

get_elem?-append_length {ℓ} :
    {A : Type ℓ} (pre suf : List A) (x : A) → get_elem? (pre ++ x ∷ suf) (length pre) ≡ some x
get_elem?-append_length [] suf x = refl
get_elem?-append_length (y ∷ pre) suf x = get_elem?-append_length pre suf x

slice-copy_to_from :
    (p : Platform) (t : Trace) (a : ℕ) (pre suf : List ℕ) (x : ℕ)
    → x ≡ a + length pre
    → slice p (copy_to a (pre ++ suf) ∷ t) x (length suf) ≡ suf
unfolding slice byte_at
slice-copy_to_from p t a pre [] x e = refl
slice-copy_to_from p t a pre (b ∷ suf) x e =
    let tail : slice p (copy_to a (pre ++ b ∷ suf) ∷ t) (x + 1) (length suf) ≡ suf =
      rw append_assoc at (
        slice-copy_to_from p t a (pre ++ b ∷ []) suf (x + 1)
          (omega (arith, e, length-append pre (b ∷ [])))) in
    ground (arith, head, tail)
  where
    offset : x - a ≡ length pre
    offset = omega arith

    head : get_elem? (pre ++ b ∷ suf) (x - a) ≡ some b
    head = rw offset (get_elem?-append_length pre suf b)

-- What is copied to an address is read back from there.
pub slice-copy_to :
    (p : Platform) (t : Trace) (a : ℕ) (buf : List ℕ)
    → slice p (copy_to a buf ∷ t) a (length buf) ≡ buf
slice-copy_to p t a buf = slice-copy_to_from p t a [] buf a (omega arith)

module _ (p : Platform) (s : Session) (w : World) where
  -- If the driver gives an address, `send` reports the whole buffer as sent, and when the packet of
  -- that address is sent, the memory there holds the buffer.
  send-delivers :
      (buf : List ℕ) (a : ℕ)
      → p.allocate_send_packet w.trace s.inner (length buf % 2 ^ 32) ≡ a
      → a ≢ 0
      → (t : Trace) × ((send p s buf w).0 ≡ ok (length buf))
        × ((send p s buf w).1.trace ≡ send_packet s.inner a ∷ t)
        × (slice p t a (length buf) ≡ buf)
  unfolding send
  send-delivers buf a e ne = (
    copy_to a buf ∷ allocate_send_packet s.inner (length buf % 2 ^ 32) ∷ w.trace,
    ground arith,
    ground arith,
    slice-copy_to p _ a buf,
  )

  -- If the driver gives no address and sets an error, `send` returns that error, and neither writes
  -- nor sends.
  send-refused :
      (buf : List ℕ) (e : ℕ)
      → p.allocate_send_packet w.trace s.inner (length buf % 2 ^ 32) ≡ 0
      → p.last_error (allocate_send_packet s.inner (length buf % 2 ^ 32) ∷ w.trace) ≡ e
      → e ≢ 0
      → send p s buf w ≡ (
        err (from_raw_os_error e),
        record w { trace = allocate_send_packet s.inner (length buf % 2 ^ 32) ∷ w.trace },
      )
  unfolding send
  send-refused buf e n l ne = ground arith

  -- A run of `send` that writes to address 0, or has nothing to write.
  abbrev pub Faults : List ℕ → Type 0
  Faults buf =
      let asked = allocate_send_packet s.inner (length buf % 2 ^ 32) ∷ w.trace in
      ((buf ≢ []) × (send p s buf w ≡ (panic, record w { trace = asked })))
      ⊎ ((buf ≡ [])
          × (send p s buf w
              ≡ (ok 0, record w { trace = send_packet s.inner 0 ∷ copy_to 0 [] ∷ asked })))

  -- If the driver gives no address and sets no error, `send` faults as it writes to address 0, unless the
  -- buffer is empty: then it sends address 0 and reports success.
  send-null :
      (buf : List ℕ)
      → p.allocate_send_packet w.trace s.inner (length buf % 2 ^ 32) ≡ 0
      → p.last_error (allocate_send_packet s.inner (length buf % 2 ^ 32) ∷ w.trace) ≡ 0
      → Faults buf
  unfolding send
  send-null [] n l = inr (refl, ground arith)
  send-null (b ∷ buf) n l = inl (λ e. ground (arith, e), ground arith)

  -- Whatever the driver answers, `send` does one of these. If there is an address, it reports the whole
  -- buffer as sent, and when the packet of that address is sent, the memory there holds the buffer. If
  -- there is none and an error is set, it returns that error and neither writes nor sends. If there is
  -- none and no error is set, it faults as it writes to address 0, and sends nothing; only an empty
  -- buffer, of which nothing is written, is sent at address 0 and reported as a success.
  pub send-branches :
      (buf : List ℕ)
      → let n = length buf % 2 ^ 32 in
        let a = p.allocate_send_packet w.trace s.inner n in
        let asked = allocate_send_packet s.inner n ∷ w.trace in
        let e = p.last_error asked in
        ((a ≢ 0)
          × (t : Trace) × ((send p s buf w).0 ≡ ok (length buf))
          × ((send p s buf w).1.trace ≡ send_packet s.inner a ∷ t)
          × (slice p t a (length buf) ≡ buf))
        ⊎ ((a ≡ 0)
            × (e ≢ 0)
            × (send p s buf w ≡ (err (from_raw_os_error e), record w { trace = asked })))
        ⊎ ((a ≡ 0) × (e ≡ 0) × Faults buf)
  send-branches buf =
      let n = length buf % 2 ^ 32 in
      let a = p.allocate_send_packet w.trace s.inner n in
      let e = p.last_error (allocate_send_packet s.inner n ∷ w.trace) in
      elim (Bool-cases (a == 0)) [
        | inr there ↦
            let ne : a ≢ 0 = ground arith in
            let (t, done, sent, there) = send-delivers buf a refl ne in
            inl (ne, t, done, sent, there)
        | inl missing ↦
            let z : a ≡ 0 = ground arith in
            elim (Bool-cases (e == 0)) [
              | inr set_one ↦
                  let ne : e ≢ 0 = ground arith in inr (inl (z, ne, send-refused buf e z refl ne))
              | inl unset ↦ let ze : e ≡ 0 = ground arith in inr (inr (z, ze, send-null buf z ze))
            ]
      ]

  -- The end of a session, on every branch: the shutdown event is signalled, the session is ended,
  -- and the event is closed unless it is null, also if a call fails. The end itself cannot fail.
  pub drop_session_lem : drop_session p {E = Error} s w ≡ (
    ok tt,
    record w {
      trace =
          (if s.shutdown_event == 0
            then end_session s.inner ∷ set_event s.shutdown_event ∷ w.trace
            else close_handle s.shutdown_event
              ∷ end_session s.inner
              ∷ set_event s.shutdown_event
              ∷ w.trace);
    },
  )
  unfolding drop_session
  drop_session_lem = ground arith
