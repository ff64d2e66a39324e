-- ===== src/Session/Stream/Refine.antt =====
-- The calls of src/session.rs implement the stream, on a driver that keeps its contract.
use wintun_bindings.Base.{
  ℕ, ◌≡◌, ◌⊎◌, List, [], ◌∷◌, ◌++◌, length, drop, ok, inl, inr, arith, refl, ltb, Bool-cases, ap,
  ◌<◌, ◌^◌, ◌%◌, ◌∙◌,
}
use wintun_bindings.Session.Calls.{try_recv, send}
use wintun_bindings.Session.Calls.Delivery.{slice-copy_to}
use wintun_bindings.Session.Packet.{Session}
use wintun_bindings.Session.Stream.{
  Stream, Op, receive_into, send_from, Reply, received, Step, finds_none, takes, loses, sends,
  refuses, Steps, done, then_one, delivered, Driver, run_op, run_ops, Fits, AllFit,
}
use wintun_bindings.System.{
  release_receive_packet, receive_packet, slice, allocate_send_packet, copy_to, send_packet, World,
  Trace, Platform,
}
use mathlib.Core.List.{append_assoc}

list_cases : {A : Type 0} (xs : List A) → (xs ≡ []) ⊎ ((x : A) × (rest : List A) × (xs ≡ x ∷ rest))
list_cases [] = inl refl
list_cases (x ∷ rest) = inr (x, rest, refl)

module _ (p : Platform) (s : Session) (driver : Driver p s.inner) where
  -- The stream after the calls of a trace.
  abbrev pub stream : Trace → Stream
  stream t = record { incoming = driver.waiting t; outgoing = delivered p s.inner t }

  -- What one operation does.
  abbrev Does : Op → World → Type 0
  Does op w =
      (reply : Reply) × (w' : World) × (run_op p s op w ≡ (ok reply, w'))
      × Step (stream w.trace) (stream w'.trace) op reply

  receive_none-Does :
      (buf : List ℕ) (w : World) → driver.waiting w.trace ≡ [] → Does (receive_into buf) w
  unfolding try_recv delivered
  receive_none-Does buf w none_there =
      let (null, code, small) = driver.receives_none w.trace none_there in
      (
        _,
        record w { trace = receive_packet s.inner ∷ w.trace },
        ground (arith, null, code, small),
        finds_none buf none_there refl,
      )

  module _ (buf b : List ℕ) (rest : List (List ℕ)) (w : World)
      (there : driver.waiting w.trace ≡ b ∷ rest) where
    after_receive : World
    after_receive = record w {
      trace =
          release_receive_packet s.inner (p.receive_packet w.trace s.inner).address
          ∷ receive_packet s.inner
          ∷ w.trace;
    }

    -- What waits after a packet was received and released.
    waits_after : (new : List (List ℕ)) × (driver.waiting after_receive.trace ≡ rest ++ new)
    unfolding after_receive
    waits_after =
        let (address, size, short, bytes, new, received_first) =
          driver.receives_first w.trace b rest there in
        let (more, released) =
          driver.keeps_release (receive_packet s.inner ∷ w.trace)
            (p.receive_packet w.trace s.inner).address in
        (new ++ more, rw (released, received_first) (append_assoc rest new more))

    receive_first-Does : Does (receive_into buf) w
    unfolding try_recv delivered after_receive
    receive_first-Does =
        let (address, size, short, bytes, _, _) = driver.receives_first w.trace b rest there in
        let (new, waits) = waits_after in
        elim (Bool-cases (ltb (length buf) (length b))) [
          | inl long ↦ (
            _,
            after_receive,
            ground (arith, address, size, short, long),
            loses buf b rest new there waits refl (ground (arith, long)),
          )
          | inr fits ↦ (
            received (inr (length b, b ++ drop (length b) buf)),
            after_receive,
            ground (
              arith,
              address,
              size,
              short,
              fits,
              ap
                    (λ n.
                      slice p (receive_packet s.inner ∷ w.trace)
                        (p.receive_packet w.trace s.inner).address n)
                    size
                  ∙ bytes,
            ),
            takes buf b rest new there waits refl (ground (arith, fits)),
          )
        ]

  module _ (buf : List ℕ) (w : World) (fits : length buf < 2 ^ 32) where
    asked : Trace
    asked = allocate_send_packet s.inner (length buf % 2 ^ 32) ∷ w.trace

    address_of : ℕ
    address_of = p.allocate_send_packet w.trace s.inner (length buf % 2 ^ 32)

    copied : Trace
    unfolding asked address_of
    copied = copy_to address_of buf ∷ asked

    -- The packet that is sent is the buffer.
    delivered-send :
        delivered p s.inner (send_packet s.inner address_of ∷ copied)
        ≡ delivered p s.inner w.trace ++ buf ∷ []
    unfolding delivered asked address_of copied
    delivered-send =
        let full : length buf % 2 ^ 32 ≡ length buf = omega (arith, fits) in
        ground (
          arith,
          full,
          ap (λ n. slice p copied address_of n) full ∙ slice-copy_to p asked address_of buf,
        )

    waits_after_send :
        (new : List (List ℕ)) × (driver.waiting (send_packet s.inner address_of ∷ copied)
          ≡ driver.waiting w.trace ++ new)
    unfolding asked copied
    waits_after_send =
        let (n₁, e₁) = driver.keeps_allocate w.trace (length buf % 2 ^ 32) in
        let (n₂, e₂) = driver.keeps_copy asked address_of buf in
        let (n₃, e₃) = driver.keeps_send copied address_of in
        ((n₁ ++ n₂) ++ n₃, rw (e₃, e₂, e₁) (simp append_assoc))

    send_from-Does : Does (send_from buf) w
    unfolding send asked address_of copied delivered
    send_from-Does = elim (driver.allocates w.trace (length buf % 2 ^ 32)) [
      | inl there ↦
          let (new, waits) = waits_after_send in
          (
            _,
            record w { trace = send_packet s.inner address_of ∷ copied },
            ground (arith, there),
            sends buf new waits delivered-send,
          )
      | inr (missing, code) ↦
          let (new, waits) = driver.keeps_allocate w.trace (length buf % 2 ^ 32) in
          (_, record w { trace = asked }, ground (arith, missing, code), refuses buf new waits refl)
    ]

  run_op-Does : (op : Op) (w : World) → Fits op → Does op w
  run_op-Does (receive_into buf) w fits = elim (list_cases (driver.waiting w.trace)) [
    | inl none_there ↦ receive_none-Does buf w none_there
    | inr (b, rest, there) ↦ receive_first-Does buf b rest w there
  ]
  run_op-Does (send_from buf) w fits = send_from-Does buf w fits

  -- On a driver that keeps its contract, any sequence of `try_recv`s and of `send`s of buffers below
  -- 2 ^ 32 bytes runs to its end without a panic, and its answers are those of a run of the stream: the
  -- packets are received in the order in which they arrive and are whole, one that is too long for its
  -- buffer is lost, and the buffers are sent whole and in order.
  pub run_ops-Steps :
      (ops : List Op) (w : World)
      → AllFit ops
      → (replies : List Reply) × (w' : World) × (run_ops p s ops w ≡ (ok replies, w'))
        × Steps (stream w.trace) ops replies (stream w'.trace)
  run_ops-Steps [] w fits = ([], w, refl, done (stream w.trace))
  run_ops-Steps (op ∷ ops) w (fit, fits) =
      let (reply, w', run, step) = run_op-Does op w fit in
      let (replies, w'', runs, steps) = run_ops-Steps ops w' fits in
      (
        reply ∷ replies,
        w'',
        ground (arith, run, runs),
        then_one (stream w.trace) (stream w'.trace) (stream w''.trace) op ops reply replies step
            steps,
      )
