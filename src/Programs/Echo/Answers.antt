-- ===== src/Programs/Echo/Answers.antt =====
-- What examples/udp-echo.rs answers to a UDP packet.
use wintun_bindings.Base.{
  none, ℕ, ◌%◌, ◌^◌, ◌≡◌, ◌≢◌, ◌⊎◌, inl, inr, List, ◌∷◌, ok, length, Text, true, arith, refl, some,
  Bool-cases, ◌==◌, Sum-cases, ap, ◌∙◌, sym, ◌+◌, ◌*◌, [],
}
use wintun_bindings.Failure.{IoError, Error}
use wintun_bindings.Programs.Echo.{
  NaiveUdpPacket, PacketCrate, RandomApi, extract_udp_packet, swapped, read_round, write_round,
  generate_random_bytes, ip_v4, send_built, id_of, write_with, ask,
}
use wintun_bindings.Session.Calls.Delivery.{slice-copy_to}
use wintun_bindings.Session.Loops.{receive_blocking}
use wintun_bindings.Session.Packet.{Session, Packet}
use wintun_bindings.System.{
  pure, panics, M, World, Trace, Platform, slice, send_packet, copy_to, allocate_send_packet,
  run-cases, Leaves,
}
use wintun_bindings.Util.SockAddr.{IpAddr, v6, v4}

-- The builder of the crate `packet` makes an IP packet of IPv4 with a UDP packet, which its views read
-- back.
abbrev pub IsBuilder : PacketCrate → Type 0
IsBuilder c =
    (id : ℕ) (src dst : List ℕ) (source destination : ℕ) (data_bytes built : List ℕ)
    → c.build id src dst source destination data_bytes ≡ inr built
    → (payload : List ℕ) × (c.as_packet built ≡ inr (ip_v4 src dst payload true))
      × (c.udp_packet payload
          ≡ inr (record { source = source; destination = destination; payload = data_bytes }))

ip_cases :
    (a : IpAddr) → ((octets : List ℕ) × (a ≡ v4 octets)) ⊎ ((octets : List ℕ) × (a ≡ v6 octets))
ip_cases (v4 octets) = inl (octets, refl)
ip_cases (v6 octets) = inr (octets, refl)

id_cases : (v : List ℕ) → ((id : ℕ) × (id_of v ≡ pure id)) ⊎ (id_of v ≡ panics)
id_cases [] = inr refl
id_cases (a ∷ []) = inr refl
id_cases (a ∷ (b ∷ rest)) = inl (a + 256 * b, refl)

-- A view that sees nothing.
abbrev none_of : Trace → ℕ
none_of t = 0

module _ (random_two : M IoError (List ℕ))
    (build : ℕ → List ℕ → List ℕ → ℕ → ℕ → List ℕ → Text ⊎ List ℕ)
    (deliver : List ℕ → M Error (Unit {0})) where
  -- A run that comes to a packet delivers it; any other does not end well, and has only asked for
  -- the random bytes.
  pub write_with-cases :
      {V : Type 0} (view : Trace → V) (resp : NaiveUdpPacket) (w : World)
      → Leaves view random_two
      → ((src : List ℕ) × (dst : List ℕ) × (id : ℕ) × (built : List ℕ) × (w' : World)
          × (resp.src_addr.ip ≡ v4 src)
          × (resp.dst_addr.ip ≡ v4 dst)
          × (build id src dst resp.src_addr.port resp.dst_addr.port resp.content ≡ inr built)
          × (view w'.trace ≡ view w.trace)
          × (write_with random_two build deliver resp w ≡ deliver built w'))
        ⊎ ((view (write_with random_two build deliver resp w).1.trace ≡ view w.trace)
            × ((write_with random_two build deliver resp w).0 ≢ ok tt))
  unfolding write_with Leaves
  write_with-cases view resp w still = elim (ip_cases resp.src_addr.ip) [
    | inr (octets, z) ↦ inr (ground (arith, z), ground (arith, z))
    | inl (src, z₁) ↦ elim (ip_cases resp.dst_addr.ip) [
      | inr (octets, z) ↦ inr (ground (arith, z₁, z), ground (arith, z₁, z))
      | inl (dst, z₂) ↦ elim (run-cases (random_two w)) [
        | inr (inl (e, w₁, r)) ↦ inr (ground (arith, z₁, z₂, r, still w), ground (arith, z₁, z₂, r))
        | inr (inr (w₁, r)) ↦ inr (ground (arith, z₁, z₂, r, still w), ground (arith, z₁, z₂, r))
        | inl (v, w₁, r) ↦
            let same : view w₁.trace ≡ view w.trace = ap (λ x. view x.1.trace) (sym r) ∙ still w in
            elim (id_cases v) [
              | inr none_there ↦ inr (
                ground (arith, z₁, z₂, r, none_there, same),
                ground (arith, z₁, z₂, r, none_there),
              )
              | inl (id, i) ↦
                  elim (Sum-cases
                    (build id src dst resp.src_addr.port resp.dst_addr.port resp.content)) [
                      | inl (e, b) ↦
                          inr
                            (ground (arith, z₁, z₂, r, i, b, same), ground (arith, z₁, z₂, r, i, b))
                      | inr (built, b) ↦ inl (
                        src,
                        dst,
                        id,
                        built,
                        w₁,
                        z₁,
                        z₂,
                        b,
                        same,
                        ground (arith, z₁, z₂, r, i, b),
                      )
                    ]
            ]
      ]
    ]
  ]

  write_with-ok :
      (resp : NaiveUdpPacket) (w : World)
      → (write_with random_two build deliver resp w).0 ≡ ok tt
      → (src : List ℕ) × (dst : List ℕ) × (id : ℕ) × (built : List ℕ) × (w' : World)
        × (resp.src_addr.ip ≡ v4 src)
        × (resp.dst_addr.ip ≡ v4 dst)
        × (build id src dst resp.src_addr.port resp.dst_addr.port resp.content ≡ inr built)
        × (write_with random_two build deliver resp w ≡ deliver built w')
  unfolding Leaves
  write_with-ok resp w done =
      elim (write_with-cases (λ (t : Trace). none_of t) resp w (λ w'. refl)) [
        | inl (src, dst, id, built, w', from, to, b, same, run) ↦
            (src, dst, id, built, w', from, to, b, run)
        | inr (same, not_done) ↦ absurd (not_done done)
      ]

-- A packet that was built for a response is read as that response.
pub extract_udp_packet-build :
    (c : PacketCrate) (resp : NaiveUdpPacket) (id : ℕ) (src dst built : List ℕ)
    → IsBuilder c
    → resp.src_addr.ip ≡ v4 src
    → resp.dst_addr.ip ≡ v4 dst
    → c.build id src dst resp.src_addr.port resp.dst_addr.port resp.content ≡ inr built
    → extract_udp_packet c built ≡ inr resp
unfolding extract_udp_packet
extract_udp_packet-build c resp id src dst built builder s d b =
    let (payload, ip, udp) =
      builder id src dst resp.src_addr.port resp.dst_addr.port resp.content built b in
    ground (arith, ip, udp, s, d)

pub ask-inr :
    (x : Text ⊎ NaiveUdpPacket) (resp : NaiveUdpPacket)
    → ask x ≡ inr resp
    → (request : NaiveUdpPacket) × (x ≡ inr request) × (resp ≡ swapped request)
ask-inr (inl e) resp h = ground (arith, h)
ask-inr (inr request) resp h = (request, refl, ground (arith, h))

module _ (p : Platform) (random : RandomApi) (c : PacketCrate) (s : Session)
    (builder : IsBuilder c) where
  send_built_lem :
      (built : List ℕ) (w : World)
      → (send_built p random c s built w).0 ≡ ok tt
      → (a : ℕ) × (t : Trace) × (a ≢ 0)
        × ((send_built p random c s built w).1.trace ≡ send_packet s.inner a ∷ t)
        × (slice p t a (length built) ≡ built)
  unfolding send_built
  send_built_lem built w done =
      let n = length built % 2 ^ 16 in
      let a = p.allocate_send_packet w.trace s.inner n in
      let asked = allocate_send_packet s.inner n ∷ w.trace in
      elim (Bool-cases (a == 0)) [
        | inl missing ↦ absurd (ground (arith, missing, done))
        | inr there ↦ (
          a,
          copy_to a built ∷ asked,
          ground (arith, there),
          ground (arith, there, done),
          slice-copy_to p asked a built,
        )
      ]

  write_round-sends :
      (resp : NaiveUdpPacket) (w : World)
      → (write_round p random c s resp w).0 ≡ ok tt
      → (a : ℕ) × (t : Trace) × (built : List ℕ) × (a ≢ 0)
        × ((write_round p random c s resp w).1.trace ≡ send_packet s.inner a ∷ t)
        × (slice p t a (length built) ≡ built)
        × (extract_udp_packet c built ≡ inr resp)
  unfolding write_round
  write_round-sends resp w done =
      let (src, dst, id, built, w', from, to, b, run) =
        write_with-ok (generate_random_bytes p random 2) c.build (send_built p random c s) resp w
          done in
      let (a, t, there, calls, memory) = send_built_lem built w' (rw run at done) in
      (
        a,
        t,
        built,
        there,
        rw run calls,
        memory,
        extract_udp_packet-build c resp id src dst built builder from to b,
      )

  -- A response comes from a packet that was received, with the addresses swapped.
  read_round-request :
      (fuel : ℕ) (resp : NaiveUdpPacket) (w : World)
      → (read_round p random c s fuel w).0 ≡ ok (some (inr resp))
      → (packet : Packet) × (w₁ : World) × (request : NaiveUdpPacket) × (receive_blocking p s fuel w
          ≡ (ok (some packet), w₁))
        × (extract_udp_packet c (slice p w₁.trace packet.address packet.size) ≡ inr request)
        × (resp ≡ swapped request)
  unfolding read_round
  read_round-request fuel resp w done = elim (run-cases (receive_blocking p s fuel w)) [
    | inr (inl (e, w₁, r)) ↦ absurd (ground (arith, r, done))
    | inr (inr (w₁, r)) ↦ absurd (ground (arith, r, done))
    | inl (none, w₁, r) ↦ absurd (ground (arith, r, done))
    | inl (some packet, w₁, r) ↦
        let x = extract_udp_packet c (slice p w₁.trace packet.address packet.size) in
        let asked : ask x ≡ inr resp = ground (arith, r, done) in
        let (request, read, same) = ask-inr x resp asked in (packet, w₁, request, r, read, same)
  ]

  -- If the reader hands a response to the writer, in whatever state the writer gets it, and the writer
  -- succeeds, then the reader has received a UDP packet of IPv4, and the last call of the writer sends a
  -- packet whose bytes are those of a UDP packet of IPv4 with the same content, from the destination of
  -- the one that was received to its source.
  pub echo-answers :
      (fuel : ℕ) (resp : NaiveUdpPacket) (w w' : World)
      → (read_round p random c s fuel w).0 ≡ ok (some (inr resp))
      → (write_round p random c s resp w').0 ≡ ok tt
      → (packet : Packet) × (w₁ : World) × (request : NaiveUdpPacket) × (receive_blocking p s fuel w
          ≡ (ok (some packet), w₁))
        × (extract_udp_packet c (slice p w₁.trace packet.address packet.size) ≡ inr request)
        × (a : ℕ) × (t : Trace) × (built : List ℕ) × (a ≢ 0)
        × ((write_round p random c s resp w').1.trace ≡ send_packet s.inner a ∷ t)
        × (slice p t a (length built) ≡ built)
        × (extract_udp_packet c built
            ≡ inr (record {
              src_addr = request.dst_addr;
              dst_addr = request.src_addr;
              content = request.content;
            }))
  echo-answers fuel resp w w' reads writes =
      let (packet, w₁, request, received, parsed, same) = read_round-request fuel resp w reads in
      let (a, t, built, there, calls, memory, answer) = write_round-sends resp w' writes in
      (
        packet,
        w₁,
        request,
        received,
        parsed,
        a,
        t,
        built,
        there,
        calls,
        memory,
        answer ∙ ap inr same,
      )
