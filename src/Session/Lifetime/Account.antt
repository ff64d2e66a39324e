-- ===== src/Session/Lifetime/Account.antt =====
-- The packets that are alive against the packets that the driver has handed out: src/packet.rs.
use wintun_bindings.Base.{
  ℕ, List, Bool, length, ◌∷◌, ◌++◌, true, if◌then◌else◌, ◌≡◌, false, [], ok, suc, arith, refl, ap,
  err,
}
use wintun_bindings.Failure.{Error}
use wintun_bindings.Session.Calls.{
  send, send_packet_of, drop_session, allocate, try_receive, shutdown,
}
use wintun_bindings.Session.Packet.{
  Kind, Session, Packet, drop_packet, send_packet_pending, receive_packet_kind,
}
use wintun_bindings.Session.Ring.{count, held, erase}
use wintun_bindings.System.{Platform, World}

abbrev pub is_received : Kind → Bool
is_received receive_packet_kind = true
is_received _ = false

-- The addresses of the received ones among the packets.
unfoldable pub received : List Packet → List ℕ
received [] = []
received (q ∷ qs) = let rest = received qs in if is_received q.kind then q.address ∷ rest else rest

pub count-received :
    (a : ℕ) (q : Packet) (xs ys : List Packet)
    → count a (received (xs ++ q ∷ ys)) ≡ count a (received (q ∷ xs ++ ys))
unfolding received count
count-received a q [] ys = refl
count-received a q (x ∷ xs) ys = ground (arith, count-received a q xs ys)

pub count-received_none : (a : ℕ) (qs : List Packet) → length qs ≡ 0 → count a (received qs) ≡ 0
unfolding received count
count-received_none a [] e = refl
count-received_none a (q ∷ qs) e = absurd (omega arith)

module _ (p : Platform) (s : Session) (w : World) where
  pub held-send : (buf : List ℕ) → held p s.inner (send p s buf w).1.trace ≡ held p s.inner w.trace
  unfolding send held
  held-send buf = ground arith

  pub held-shutdown : held p s.inner (shutdown p s w).1.trace ≡ held p s.inner w.trace
  unfolding shutdown held
  held-shutdown = ground arith

  pub held-receive_failed :
      (e : Error)
      → (try_receive p s w).0 ≡ err e
      → held p s.inner (try_receive p s w).1.trace ≡ held p s.inner w.trace
  unfolding try_receive held
  held-receive_failed e eq = ground arith

  pub held-allocate :
      (size : ℕ) → held p s.inner (allocate p s size w).1.trace ≡ held p s.inner w.trace
  unfolding allocate held
  held-allocate size = ground arith

  pub allocate-packet :
      (size : ℕ) (packet : Packet)
      → (allocate p s size w).0 ≡ ok packet
      → (packet.kind ≡ send_packet_pending) × (packet.session ≡ s)
  unfolding allocate
  allocate-packet size packet e = ground arith

  pub held-send_packet_of :
      (packet : Packet)
      → packet.kind ≡ send_packet_pending
      → held p s.inner (send_packet_of p {E = Error} s packet w).1.trace ≡ held p s.inner w.trace
  unfolding send_packet_of held
  held-send_packet_of packet e = ground arith

  pub held-drop_packet_kind :
      (packet : Packet)
      → packet.session.inner ≡ s.inner
      → held p s.inner (drop_packet p {E = Error} packet w).1.trace ≡ (
          if is_received packet.kind
          then erase packet.address (held p s.inner w.trace)
          else held p s.inner w.trace)
  unfolding drop_packet held
  held-drop_packet_kind packet e = ground arith

  pub held-drop_session :
      held p s.inner (drop_session p {E = Error} s w).1.trace ≡ held p s.inner w.trace
  unfolding drop_session held
  held-drop_session = ground arith

abbrev pub Mine : Session → List Packet → Type 0
Mine s [] = Unit
Mine s (q ∷ qs) = (q.session.inner ≡ s.inner) × Mine s qs

pub Mine-split :
    (s : Session) (xs ys : List Packet) (q : Packet)
    → Mine s (xs ++ q ∷ ys)
    → (q.session.inner ≡ s.inner) × Mine s (xs ++ ys)
Mine-split s [] ys q m = m
Mine-split s (x ∷ xs) ys q (e, m) = let (a, b) = Mine-split s xs ys q m in (a, (e, b))

pub length-split {ℓ} :
    {A : Type ℓ} (xs ys : List A) (q : A) → length (xs ++ q ∷ ys) ≡ suc (length (xs ++ ys))
length-split [] ys q = refl
length-split (x ∷ xs) ys q = ap suc (length-split xs ys q)
