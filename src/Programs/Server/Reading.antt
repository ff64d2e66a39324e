-- ===== src/Programs/Server/Reading.antt =====
-- What a round of the reader of examples/udp-echo.rs makes of what the session has received.
use mathlib.Core.List.{append-nil}
use wintun_bindings.Base.{
  ℕ, none, some, List, ◌++◌, Text, ◌∷◌, ◌≡◌, arith, Outcome, [], inr, inl, refl, Option, ok, ◌⊎◌,
  ◌≢◌, panic, err, ◌∙◌,
}
use wintun_bindings.Failure.{Error}
use wintun_bindings.Programs.Basic.Reading.{receive_blocking-packet}
use wintun_bindings.Programs.Echo.{
  PacketCrate, RandomApi, NaiveUdpPacket, read_round, ask, extract_udp_packet,
}
use wintun_bindings.Session.Arrivals.{
  arrived, receive_blocking-Receives, Receives-some, Receives, delivered-receive_blocking,
  Receives-none, Receives-err, Receives-panic,
}
use wintun_bindings.Session.Loops.{receive_blocking}
use wintun_bindings.Session.Packet.{Session, drop_packet, Packet}
use wintun_bindings.Session.Stream.{delivered}
use wintun_bindings.System.{Platform, Trace, World, run-cases, slice, Leaves}
use mathlib.Core.Path.{subst, ap, sym}

-- The answer to a packet goes from its destination to its source, with its content.
abbrev pub answer_to : NaiveUdpPacket → NaiveUdpPacket
answer_to request = record {
  src_addr = request.dst_addr;
  dst_addr = request.src_addr;
  content = request.content;
}

module _ (c : PacketCrate) where
  -- The responses to packets, oldest first: those to the UDP packets of IPv4.
  unfoldable pub asks : List (List ℕ) → List NaiveUdpPacket
  asks [] = []
  asks (b ∷ bs) =
      let rest = asks bs in
      elim (extract_udp_packet c b) [ inr request ↦ answer_to request ∷ rest | inl e ↦ rest ]

  pub asks-append : (xs ys : List (List ℕ)) → asks (xs ++ ys) ≡ asks xs ++ asks ys
  unfolding asks
  asks-append [] ys = refl
  asks-append (b ∷ bs) ys = ground (arith, asks-append bs ys)

  pub asks-snoc :
      (xs : List (List ℕ)) (b : List ℕ) (r : NaiveUdpPacket)
      → ask (extract_udp_packet c b) ≡ inr r
      → asks (xs ++ b ∷ []) ≡ asks xs ++ r ∷ []
  unfolding asks
  asks-snoc xs b r h = ground (arith, h, asks-append xs (b ∷ []))

  pub asks-snoc_none :
      (xs : List (List ℕ)) (b : List ℕ) (e : Text)
      → ask (extract_udp_packet c b) ≡ inl e
      → asks (xs ++ b ∷ []) ≡ asks xs
  unfolding asks
  asks-snoc_none xs b e h = ground (arith, h, asks-append xs (b ∷ []), append-nil (asks xs))

module _ (p : Platform) (random : RandomApi) (c : PacketCrate) (s : Session) where
  abbrev pub asked : Trace → List NaiveUdpPacket
  asked t = asks c (arrived p s.inner t)

  -- A round of the reader that hands a response over has received one request in addition. Any other
  -- round has received none, unless it panics.
  abbrev pub Hands : World → Outcome Error (Option (Text ⊎ NaiveUdpPacket)) × World → Type 0
  Hands w r =
      ((response : NaiveUdpPacket) × (r.0 ≡ ok (some (inr response)))
        × (asked r.1.trace ≡ asked w.trace ++ response ∷ []))
      ⊎ (((response : NaiveUdpPacket) → r.0 ≢ ok (some (inr response)))
          × (r.0 ≢ panic → asked r.1.trace ≡ asked w.trace)
          × (new : List NaiveUdpPacket) × (asked r.1.trace ≡ asked w.trace ++ new))

  arrived-drop_packet :
      (packet : Packet) (w : World)
      → arrived p s.inner (drop_packet p {E = Error} packet w).1.trace ≡ arrived p s.inner w.trace
  unfolding drop_packet arrived
  arrived-drop_packet packet w = ground arith

  pub read_round-none :
      (fuel : ℕ) (w w₁ : World)
      → receive_blocking p s fuel w ≡ (ok none, w₁)
      → read_round p random c s fuel w ≡ (ok none, w₁)
  unfolding read_round
  read_round-none fuel w w₁ r = rw (r, read_round) refl

  pub read_round_err :
      (fuel : ℕ) (w w₁ : World) (e : Error)
      → receive_blocking p s fuel w ≡ (err e, w₁)
      → read_round p random c s fuel w ≡ (err e, w₁)
  unfolding read_round
  read_round_err fuel w w₁ e r = rw (r, read_round) refl

  pub read_round_panic :
      (fuel : ℕ) (w w₁ : World)
      → receive_blocking p s fuel w ≡ (panic, w₁)
      → read_round p random c s fuel w ≡ (panic, w₁)
  unfolding read_round
  read_round_panic fuel w w₁ r = rw (r, read_round) refl

  pub read_round_runs :
      (fuel : ℕ) (w w₁ : World) (packet : Packet)
      → receive_blocking p s fuel w ≡ (ok (some packet), w₁)
      → read_round p random c s fuel w ≡ (
        ok (some (ask (extract_udp_packet c (slice p w₁.trace packet.address packet.size)))),
        (drop_packet p {E = Error} packet w₁).1,
      )
  unfolding read_round
  read_round_runs fuel w w₁ packet r = ground (arith, r, receive_blocking-packet p s fuel packet w)

  nothing-Hands :
      (w : World) (r : Outcome Error (Option (Text ⊎ NaiveUdpPacket)) × World)
      → ((response : NaiveUdpPacket) → r.0 ≢ ok (some (inr response)))
      → asked r.1.trace ≡ asked w.trace
      → Hands w r
  nothing-Hands w r never same =
      inr (never, λ calm. same, [], same ∙ sym (append-nil (asked w.trace)))

  packet-Hands :
      (w w₁ : World) (packet : Packet) (x : Text ⊎ NaiveUdpPacket)
      → ask (extract_udp_packet c (slice p w₁.trace packet.address packet.size)) ≡ x
      → arrived p s.inner w₁.trace
        ≡ arrived p s.inner w.trace ++ slice p w₁.trace packet.address packet.size ∷ []
      → Hands w (ok (some x), (drop_packet p {E = Error} packet w₁).1)
  packet-Hands w w₁ packet (inr response) is more =
      let same = arrived-drop_packet packet w₁ ∙ more in
      inl (
        response,
        refl,
        ap (asks c) same
            ∙ asks-snoc c (arrived p s.inner w.trace) (slice p w₁.trace packet.address packet.size)
                response is,
      )
  packet-Hands w w₁ packet (inl e) is more =
      nothing-Hands w (ok (some (inl e)), (drop_packet p {E = Error} packet w₁).1)
        (λ response. ground arith)
        (ap (asks c) (arrived-drop_packet packet w₁ ∙ more)
          ∙ asks-snoc_none c (arrived p s.inner w.trace)
              (slice p w₁.trace packet.address packet.size) e is)

  pub read_round-Hands : (fuel : ℕ) (w : World) → Hands w (read_round p random c s fuel w)
  read_round-Hands fuel w =
      let seen = receive_blocking-Receives p s fuel w in
      elim (run-cases (receive_blocking p s fuel w)) [
        | inl (some packet, w₁, r) ↦ rw (read_round_runs fuel w w₁ packet r) (
            packet-Hands w w₁ packet
              (ask (extract_udp_packet c (slice p w₁.trace packet.address packet.size))) refl
              (Receives-some p s w w₁ packet (subst (Receives p s w) r seen)))
        | inl (none, w₁, r) ↦ rw (read_round-none fuel w w₁ r) (
            nothing-Hands w (ok none, w₁) (λ response. ground arith)
              (ap (asks c) (Receives-none p s w w₁ (subst (Receives p s w) r seen))))
        | inr (inl (e, w₁, r)) ↦ rw (read_round_err fuel w w₁ e r) (
            nothing-Hands w (err e, w₁) (λ response. ground arith)
              (ap (asks c) (Receives-err p s w w₁ e (subst (Receives p s w) r seen))))
        | inr (inr (w₁, r)) ↦
            let (new, more) = Receives-panic p s w w₁ (subst (Receives p s w) r seen) in
            rw (read_round_panic fuel w w₁ r) (
              inr (
                λ response. ground arith,
                λ calm. absurd (calm refl),
                asks c new,
                ap (asks c) more ∙ asks-append c (arrived p s.inner w.trace) new,
              ))
      ]

  delivered-drop_packet :
      (packet : Packet) → Leaves (delivered p s.inner) (drop_packet p {E = Error} packet)
  unfolding Leaves drop_packet delivered
  delivered-drop_packet packet w = ground arith

  pub read_round-delivered :
      (fuel : ℕ) → Leaves (delivered p s.inner) (read_round p random c s fuel)
  unfolding Leaves
  read_round-delivered fuel w =
      let still = delivered-receive_blocking p s fuel w in
      elim (run-cases (receive_blocking p s fuel w)) [
        | inl (some packet, w₁, r) ↦ rw (read_round_runs fuel w w₁ packet r) (
            delivered-drop_packet packet w₁
            ∙ ap (λ x. delivered p s.inner x.1.trace) (sym r)
            ∙ still)
        | inl (none, w₁, r) ↦
            rw (read_round-none fuel w w₁ r)
              (ap (λ x. delivered p s.inner x.1.trace) (sym r) ∙ still)
        | inr (inl (e, w₁, r)) ↦
            rw (read_round_err fuel w w₁ e r)
              (ap (λ x. delivered p s.inner x.1.trace) (sym r) ∙ still)
        | inr (inr (w₁, r)) ↦
            rw (read_round_panic fuel w w₁ r)
              (ap (λ x. delivered p s.inner x.1.trace) (sym r) ∙ still)
      ]

  -- What the rounds of the reader have received, by their ends.
  pub asked-asks :
      (fuel : ℕ) (w w' : World) (response : NaiveUdpPacket)
      → read_round p random c s fuel w ≡ (ok (some (inr response)), w')
      → asked w'.trace ≡ asked w.trace ++ response ∷ []
  asked-asks fuel w w' response run = elim (subst (Hands w) run (read_round-Hands fuel w)) [
    | inl (response', got, more) ↦ ground (arith, got, more)
    | inr (never, calm, new, more) ↦ absurd (never response refl)
  ]

  pub asked-quiet :
      (fuel : ℕ) (w w' : World) (o : Outcome Error (Option (Text ⊎ NaiveUdpPacket)))
      → read_round p random c s fuel w ≡ (o, w')
      → ((response : NaiveUdpPacket) → o ≢ ok (some (inr response)))
      → o ≢ panic
      → asked w'.trace ≡ asked w.trace
  asked-quiet fuel w w' o run nothing alive = elim (subst (Hands w) run (read_round-Hands fuel w)) [
    | inl (response, got, more) ↦ absurd (nothing response got)
    | inr (never, calm, new, more) ↦ calm alive
  ]

  pub asked-grows :
      (fuel : ℕ) (w w' : World) (o : Outcome Error (Option (Text ⊎ NaiveUdpPacket)))
      → read_round p random c s fuel w ≡ (o, w')
      → (new : List NaiveUdpPacket) × (asked w'.trace ≡ asked w.trace ++ new)
  asked-grows fuel w w' o run = elim (subst (Hands w) run (read_round-Hands fuel w)) [
    | inl (response, got, more) ↦ (response ∷ [], more)
    | inr (never, calm, new, more) ↦ (new, more)
  ]

  pub delivered-read :
      (fuel : ℕ) (w w' : World) (o : Outcome Error (Option (Text ⊎ NaiveUdpPacket)))
      → read_round p random c s fuel w ≡ (o, w')
      → delivered p s.inner w'.trace ≡ delivered p s.inner w.trace
  unfolding Leaves
  delivered-read fuel w w' o run =
      ap (λ x. delivered p s.inner x.1.trace) (sym run) ∙ read_round-delivered fuel w
