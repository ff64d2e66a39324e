-- ===== src/Session/Stream.antt =====
-- A session as its user sees it, the specification of `try_recv` and `send` of src/session.rs: packets
-- are received in the order in which they arrive, and are sent in the order of the calls.
pub mod Refine
use wintun_bindings.Base.{
  ℕ, ◌<◌, ◌≤◌, ◌≡◌, ◌≢◌, ◌⊎◌, ◌==◌, ◌&&◌, List, [], ◌∷◌, ◌++◌, length, drop, inl, inr, text,
  if◌then◌else◌, ◌^◌,
}
use wintun_bindings.Failure.{
  IoError, from_kind, would_block, message, invalid_input, from_raw_os_error,
}
use wintun_bindings.Session.Calls.{try_recv, send}
use wintun_bindings.Session.Packet.{Session}
use wintun_bindings.System.{
  M, ◌>>=◌, pure, attempt, Trace, Platform, slice, receive_packet, release_receive_packet,
  allocate_send_packet, copy_to, send_packet,
}

-- The packets that wait to be received, and those that were sent, each oldest first.
pub record Stream : Type 0 where
  pub incoming : List (List ℕ)
  pub outgoing : List (List ℕ)

pub data Op : Type 0 where
  receive_into : List ℕ → Op
  send_from : List ℕ → Op

pub data Reply : Type 0 where
  received : IoError ⊎ (ℕ × List ℕ) → Reply
  sent : IoError ⊎ ℕ → Reply

-- A call may be answered in these ways. Further packets may arrive during each.
pub data Step (s s' : Stream) : Op → Reply → Type 0 where
  -- Nothing is there.
  finds_none :
      (buf : List ℕ)
      → s.incoming ≡ []
      → s'.outgoing ≡ s.outgoing
      → Step s s' (receive_into buf) (received (inl (from_kind would_block)))
  -- The oldest packet is put into the buffer, of which the rest is kept.
  takes :
      (buf b : List ℕ) (rest new : List (List ℕ))
      → s.incoming ≡ b ∷ rest
      → s'.incoming ≡ rest ++ new
      → s'.outgoing ≡ s.outgoing
      → length b ≤ length buf
      → Step s s' (receive_into buf) (received (inr (length b, b ++ drop (length b) buf)))
  -- The oldest packet is too long for the buffer, and is lost.
  loses :
      (buf b : List ℕ) (rest new : List (List ℕ))
      → s.incoming ≡ b ∷ rest
      → s'.incoming ≡ rest ++ new
      → s'.outgoing ≡ s.outgoing
      → length buf < length b
      → Step s s'
          (receive_into buf)
          (received (inl (message invalid_input (text "destination buffer too small"))))
  -- The buffer is sent as a packet.
  sends :
      (buf : List ℕ) (new : List (List ℕ))
      → s'.incoming ≡ s.incoming ++ new
      → s'.outgoing ≡ s.outgoing ++ buf ∷ []
      → Step s s' (send_from buf) (sent (inr (length buf)))
  -- There is no room: ERROR_BUFFER_OVERFLOW.
  refuses :
      (buf : List ℕ) (new : List (List ℕ))
      → s'.incoming ≡ s.incoming ++ new
      → s'.outgoing ≡ s.outgoing
      → Step s s' (send_from buf) (sent (inl (from_raw_os_error 111)))

pub data Steps : Stream → List Op → List Reply → Stream → Type 0 where
  done : (s : Stream) → Steps s [] [] s
  then_one :
      (s s' s'' : Stream) (op : Op) (ops : List Op) (reply : Reply) (replies : List Reply)
      → Step s s' op reply
      → Steps s' ops replies s''
      → Steps s (op ∷ ops) (reply ∷ replies) s''

module _ (p : Platform) (h : ℕ) where
  -- The size of the packet that was allocated last at an address.
  unfoldable pub allocated_size : ℕ → Trace → ℕ
  allocated_size a [] = 0
  allocated_size a (allocate_send_packet k n ∷ t) =
      let before = allocated_size a t in
      if (k == h) && (p.allocate_send_packet t k n == a) then n else before
  allocated_size a (c ∷ t) = allocated_size a t

  -- What has been sent: the bytes of each packet when it was sent.
  unfoldable pub delivered : Trace → List (List ℕ)
  unfolding allocated_size
  delivered [] = []
  delivered (send_packet k a ∷ t) =
      let before = delivered t in
      if k == h then before ++ slice p t a (allocated_size a t) ∷ [] else before
  delivered (c ∷ t) = delivered t

  -- The contract of the driver for a session: which packets wait after the calls of a trace. A
  -- packet that is received is in memory, is not longer than 65535 bytes, and does not wait any more.
  -- All other calls leave the waiting packets, to which new ones may be added. An allocation that
  -- fails says that the ring is full.
  pub record Driver : Type 0 where
    pub waiting : Trace → List (List ℕ)
    pub receives_none :
        (t : Trace)
        → waiting t ≡ []
        → ((p.receive_packet t h).address ≡ 0)
          × (p.last_error (receive_packet h ∷ t) ≡ 259)
          × ((p.receive_packet t h).size ≤ 65535)
    pub receives_first :
        (t : Trace) (b : List ℕ) (rest : List (List ℕ))
        → waiting t ≡ b ∷ rest
        → let r = p.receive_packet t h in
          (r.address ≢ 0)
          × (r.size ≡ length b)
          × (length b ≤ 65535)
          × (slice p (receive_packet h ∷ t) r.address (length b) ≡ b)
          × (new : List (List ℕ)) × (waiting (receive_packet h ∷ t) ≡ rest ++ new)
    pub keeps_release :
        (t : Trace) (a : ℕ)
        → (new : List (List ℕ)) × (waiting (release_receive_packet h a ∷ t) ≡ waiting t ++ new)
    pub keeps_allocate :
        (t : Trace) (n : ℕ)
        → (new : List (List ℕ)) × (waiting (allocate_send_packet h n ∷ t) ≡ waiting t ++ new)
    pub keeps_copy :
        (t : Trace) (a : ℕ) (bs : List ℕ)
        → (new : List (List ℕ)) × (waiting (copy_to a bs ∷ t) ≡ waiting t ++ new)
    pub keeps_send :
        (t : Trace) (a : ℕ)
        → (new : List (List ℕ)) × (waiting (send_packet h a ∷ t) ≡ waiting t ++ new)
    pub allocates :
        (t : Trace) (n : ℕ)
        → (p.allocate_send_packet t h n ≢ 0)
          ⊎ ((p.allocate_send_packet t h n ≡ 0)
              × (p.last_error (allocate_send_packet h n ∷ t) ≡ 111))

module _ (p : Platform) (s : Session) where
  abbrev pub run_op : Op → M ⊥ Reply
  run_op (receive_into buf) = do r ← attempt (try_recv p s buf); pure (received r)
  run_op (send_from buf) = do r ← attempt (send p s buf); pure (sent r)

  abbrev pub run_ops : List Op → M ⊥ (List Reply)
  run_ops [] = pure []
  run_ops (op ∷ ops) = do reply ← run_op op; replies ← run_ops ops; pure (reply ∷ replies)

-- A buffer whose length is a `u32`.
abbrev pub Fits : Op → Type 0
Fits (receive_into buf) = Unit
Fits (send_from buf) = length buf < 2 ^ 32

abbrev pub AllFit : List Op → Type 0
AllFit [] = Unit
AllFit (op ∷ ops) = Fits op × AllFit ops
