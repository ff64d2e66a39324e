-- ===== src/Session/Ring.antt =====
-- The ring buffer of a session as its driver sees it: which addresses are handed out, read off the
-- calls made so far. This is the specification of the calls of src/session.rs and src/packet.rs.
pub mod Balance
use wintun_bindings.Base.{
  ℕ, List, [], ◌∷◌, ◌&&◌, not, ◌≡◌, ◌==◌, if◌then◌else◌, arith, ◌+◌, refl, ◌-◌,
}
use wintun_bindings.System.{
  Trace, Platform, receive_packet, release_receive_packet, allocate_send_packet, send_packet,
}

-- The list without the first entry that equals `a`.
unfoldable pub erase : ℕ → List ℕ → List ℕ
erase a [] = []
erase a (x ∷ xs) = if a == x then xs else x ∷ erase a xs

pub erase-cons_self : (a : ℕ) (xs : List ℕ) → erase a (a ∷ xs) ≡ xs
unfolding erase
erase-cons_self a xs = ground arith

module _ (p : Platform) (h : ℕ) where
  -- The addresses of the received packets of session `h` that have not been released.
  unfoldable pub held : Trace → List ℕ
  held [] = []
  held (receive_packet k ∷ t) =
      let rest = held t in
      if (k == h) && not ((p.receive_packet t k).address == 0)
      then (p.receive_packet t k).address ∷ rest
      else rest
  held (release_receive_packet k a ∷ t) = if k == h then erase a (held t) else held t
  held (c ∷ t) = held t

  -- The addresses that session `h` has allocated for sending and that have not been sent.
  unfoldable pub unsent : Trace → List ℕ
  unsent [] = []
  unsent (allocate_send_packet k n ∷ t) =
      let rest = unsent t in
      if (k == h) && not (p.allocate_send_packet t k n == 0)
      then p.allocate_send_packet t k n ∷ rest
      else rest
  unsent (send_packet k a ∷ t) = if k == h then erase a (unsent t) else unsent t
  unsent (c ∷ t) = unsent t

-- How often `a` stands in the list.
unfoldable pub count : ℕ → List ℕ → ℕ
count a [] = 0
count a (x ∷ xs) = if a == x then count a xs + 1 else count a xs

pub count-erase :
    (a b : ℕ) (xs : List ℕ) → count a (erase b xs) ≡ (if a == b then count a xs - 1 else count a xs)
unfolding count erase
count-erase a b [] = ground arith
count-erase a b (x ∷ xs) = ground (arith, count-erase a b xs)

pub eq-nil-of-count : (xs : List ℕ) → ((a : ℕ) → count a xs ≡ 0) → xs ≡ []
unfolding count
eq-nil-of-count [] h = refl
eq-nil-of-count (x ∷ xs) h = ground (arith, h x)
