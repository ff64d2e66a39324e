-- ===== src/Programs/Server/InOrder.antt =====
-- That the threads of examples/udp-echo.rs answer in order, and what keeps this.
use wintun_bindings.Base.{ℕ, ◌≡◌, inr, ◌++◌, ◌≢◌, refl, ap, ◌∙◌, ◌∷◌, sym}
use wintun_bindings.Programs.Echo.{RandomApi, PacketCrate, NaiveUdpPacket, extract_udp_packet}
use wintun_bindings.Programs.Server.{Server, ended, at_test}
use wintun_bindings.Programs.Server.Reading.{asked}
use wintun_bindings.Session.Packet.{Session}
use wintun_bindings.Session.Stream.{delivered}
use wintun_bindings.System.{World, Platform}
use mathlib.Core.List.{append-nil, append_assoc, List, map, [], map-append}

module _ (p : Platform) (random : RandomApi) (c : PacketCrate) (s : Session) where
  -- The packets that were sent are read as the answers to the first of the requests that were received,
  -- in the order in which these came. While the writer has not ended, the answers that are left are
  -- those in the queue, and further ones only if the reader has ended by a panic.
  abbrev pub InOrder : Server → Type 0
  InOrder v =
      (answered : List NaiveUdpPacket) × (rest : List NaiveUdpPacket) × (map (extract_udp_packet c)
          (delivered p s.inner v.world.trace)
        ≡ map inr answered)
      × (asked p random c s v.world.trace ≡ answered ++ rest)
      × (v.writer ≢ ended
          → (more : List NaiveUdpPacket) × (rest ≡ v.queue ++ more)
            × (v.reader ≢ ended → more ≡ []))

  -- A step in which the session receives and sends nothing, and the queue stays.
  pub keeps-InOrder :
      (v v' : Server)
      → delivered p s.inner v'.world.trace ≡ delivered p s.inner v.world.trace
      → asked p random c s v'.world.trace ≡ asked p random c s v.world.trace
      → v'.queue ≡ v.queue
      → (v'.writer ≢ ended → v.writer ≢ ended)
      → (v'.reader ≢ ended → v.reader ≢ ended)
      → InOrder v
      → InOrder v'
  keeps-InOrder v v' none_sent none_asked same writes reads (answered, rest, sent, all, left) = (
    answered,
    rest,
    ap (map (extract_udp_packet c)) none_sent ∙ sent,
    none_asked ∙ all,
    λ alive.
        let (more, q, none_more) = left (writes alive) in
        (more, q ∙ ap (λ xs. xs ++ more) (sym same), λ r. none_more (reads r)),
  )

  -- The writer has ended; what was received before may be more.
  pub alone-InOrder :
      (v v' : Server) (new : List NaiveUdpPacket)
      → delivered p s.inner v'.world.trace ≡ delivered p s.inner v.world.trace
      → asked p random c s v'.world.trace ≡ asked p random c s v.world.trace ++ new
      → v'.writer ≡ ended
      → InOrder v
      → InOrder v'
  alone-InOrder v v' new none_sent more gone (answered, rest, sent, all, left) = (
    answered,
    rest ++ new,
    ap (map (extract_udp_packet c)) none_sent ∙ sent,
    more ∙ ap (λ xs. xs ++ new) all ∙ append_assoc answered rest new,
    λ alive. absurd (alive gone),
  )

  pub asks-InOrder :
      (v : Server) (request : NaiveUdpPacket) (w : World)
      → delivered p s.inner w.trace ≡ delivered p s.inner v.world.trace
      → asked p random c s w.trace ≡ asked p random c s v.world.trace ++ request ∷ []
      → v.reader ≢ ended
      → InOrder v
      → InOrder (record v { world = w; queue = v.queue ++ request ∷ []; reader = at_test })
  asks-InOrder v request w none_sent one reads (answered, rest, sent, all, left) = (
    answered,
    rest ++ request ∷ [],
    ap (map (extract_udp_packet c)) none_sent ∙ sent,
    one ∙ ap (λ xs. xs ++ request ∷ []) all ∙ append_assoc answered rest (request ∷ []),
    λ alive.
        let (more, q, none_more) = left alive in
        (
          [],
          (let z : rest ≡ v.queue =
                q ∙ ap (λ xs. v.queue ++ xs) (none_more reads) ∙ append-nil v.queue in
              ap (λ xs. xs ++ request ∷ []) z ∙ sym (append-nil (v.queue ++ request ∷ []))),
          λ r. refl,
        ),
  )

  pub fails-InOrder :
      (v : Server) (w : World) (new : List NaiveUdpPacket)
      → delivered p s.inner w.trace ≡ delivered p s.inner v.world.trace
      → asked p random c s w.trace ≡ asked p random c s v.world.trace ++ new
      → InOrder v
      → InOrder (record v { world = w; reader = ended })
  fails-InOrder v w new none_sent some_new (answered, rest, sent, all, left) = (
    answered,
    rest ++ new,
    ap (map (extract_udp_packet c)) none_sent ∙ sent,
    some_new ∙ ap (λ xs. xs ++ new) all ∙ append_assoc answered rest new,
    λ alive.
        let (more, q, none_more) = left alive in
        (more ++ new, ap (λ xs. xs ++ new) q ∙ append_assoc v.queue more new, λ r. absurd (r refl)),
  )

  pub answers-InOrder :
      (v : Server) (response : NaiveUdpPacket) (queue' : List NaiveUdpPacket) (built : List ℕ)
      (w : World)
      → v.writer ≢ ended
      → v.queue ≡ response ∷ queue'
      → extract_udp_packet c built ≡ inr response
      → delivered p s.inner w.trace ≡ delivered p s.inner v.world.trace ++ built ∷ []
      → asked p random c s w.trace ≡ asked p random c s v.world.trace
      → InOrder v
      → InOrder (record v { world = w; queue = queue'; writer = at_test })
  answers-InOrder v response queue' built w alive first reads one none_asked
        (answered, rest, sent, all, left) =
      let (more, q, none_more) = left alive in
      (
        answered ++ response ∷ [],
        queue' ++ more,
        ap (map (extract_udp_packet c)) one
            ∙ map-append (extract_udp_packet c) (delivered p s.inner v.world.trace) (built ∷ [])
            ∙ ap (λ xs. xs ++ extract_udp_packet c built ∷ []) sent
            ∙ ap (λ x. map inr answered ++ x ∷ []) reads
            ∙ sym (map-append inr answered (response ∷ [])),
        none_asked
            ∙ all
            ∙ ap (λ xs. answered ++ xs) (q ∙ ap (λ xs. xs ++ more) first)
            ∙ sym (append_assoc answered (response ∷ []) (queue' ++ more)),
        λ alive'. (more, refl, none_more),
      )
