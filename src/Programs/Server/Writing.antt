-- ===== src/Programs/Server/Writing.antt =====
-- What a round of the writer of examples/udp-echo.rs sends.
use wintun_bindings.Base.{
  ℕ, List, arith, inr, ◌≡◌, inl, ok, ap, ◌++◌, ◌∙◌, ◌∷◌, [], ◌⊎◌, ◌≢◌, length, ◌%◌, ◌^◌, Bool-cases,
  ◌==◌,
}
use wintun_bindings.Programs.Echo.{
  RandomApi, PacketCrate, send_built, write_round, generate_random_bytes, NaiveUdpPacket,
  extract_udp_packet,
}
use wintun_bindings.Programs.Echo.Answers.{IsBuilder, write_with-cases, extract_udp_packet-build}
use wintun_bindings.Session.Arrivals.{arrived}
use wintun_bindings.Session.Calls.Delivery.{slice-copy_to}
use wintun_bindings.Session.Packet.{Session}
use wintun_bindings.Session.Stream.{delivered}
use wintun_bindings.System.{Platform, Leaves, World, allocate_send_packet, slice, copy_to}

module _ (p : Platform) (random : RandomApi) (c : PacketCrate) (s : Session) where
  -- A packet that is sent, or none.
  send_built-delivered :
      (built : List ℕ) (w : World)
      → let r = send_built p random c s built w in
        ((r.0 ≡ ok tt)
          × (delivered p s.inner r.1.trace ≡ delivered p s.inner w.trace ++ built ∷ []))
        ⊎ ((delivered p s.inner r.1.trace ≡ delivered p s.inner w.trace) × (r.0 ≢ ok tt))
  unfolding send_built delivered
  send_built-delivered built w =
      let n = length built % 2 ^ 16 in
      let a = p.allocate_send_packet w.trace s.inner n in
      let asked = allocate_send_packet s.inner n ∷ w.trace in
      elim (Bool-cases (a == 0)) [
        | inl missing ↦ inr (ground (arith, missing), ground (arith, missing))
        | inr there ↦ elim (Bool-cases (n == length built)) [
          | inr cut ↦ inr (ground (arith, there, cut), ground (arith, there, cut))
          | inl whole ↦
              let same : n ≡ length built = ground (arith, whole) in
              let memory : slice p (copy_to a built ∷ asked) a n ≡ built =
                ap (slice p (copy_to a built ∷ asked) a) same ∙ slice-copy_to p asked a built in
              inl (ground (arith, there, whole), ground (arith, there, whole, memory))
        ]
      ]

  send_built-arrived : (built : List ℕ) → Leaves (arrived p s.inner) (send_built p random c s built)
  unfolding Leaves send_built arrived
  send_built-arrived built w = ground arith

  pub random-delivered : Leaves (delivered p s.inner) (generate_random_bytes p random 2)
  unfolding Leaves generate_random_bytes delivered
  random-delivered w = ground arith

  pub random-arrived : Leaves (arrived p s.inner) (generate_random_bytes p random 2)
  unfolding Leaves generate_random_bytes arrived
  random-arrived w = ground arith

  pub write_round-arrived :
      (response : NaiveUdpPacket) → Leaves (arrived p s.inner) (write_round p random c s response)
  unfolding Leaves write_round
  write_round-arrived response w =
      elim (write_with-cases (generate_random_bytes p random 2) c.build (send_built p random c s)
        (arrived p s.inner) response w random-arrived) [
          | inr (same, not_done) ↦ same
          | inl (src, dst, id, built, w', from, to, b, same, run) ↦
              ap (λ x. arrived p s.inner x.1.trace) run ∙ send_built-arrived built w' ∙ same
        ]

  -- A round of the writer that ends well sends one packet, which is read as the response. Any other
  -- sends none.
  pub write_round-delivered :
      IsBuilder c
      → (response : NaiveUdpPacket) (w : World)
      → let r = write_round p random c s response w in
        ((r.0 ≡ ok tt)
          × (built : List ℕ) × (extract_udp_packet c built ≡ inr response)
          × (delivered p s.inner r.1.trace ≡ delivered p s.inner w.trace ++ built ∷ []))
        ⊎ ((delivered p s.inner r.1.trace ≡ delivered p s.inner w.trace) × (r.0 ≢ ok tt))
  unfolding Leaves write_round
  write_round-delivered builder response w =
      elim (write_with-cases (generate_random_bytes p random 2) c.build (send_built p random c s)
        (delivered p s.inner) response w random-delivered) [
          | inr done ↦ inr done
          | inl (src, dst, id, built, w', from, to, b, same, run) ↦
              rw run (elim (send_built-delivered built w') [
                | inl (done, more) ↦ inl (
                  done,
                  built,
                  extract_udp_packet-build c response id src dst built builder from to b,
                  more ∙ ap (λ xs. xs ++ built ∷ []) same,
                )
                | inr (still, not_done) ↦ inr (still ∙ same, not_done)
              ])
        ]
