-- ===== src/Util/SockAddr.antt =====
-- src/util.rs: socket addresses of the Windows API, on a little-endian machine.
use wintun_bindings.Base.{
  ℕ, List, Bool, ◌<◌, ◌%◌, true, ◌⊎◌, text_eq, ◌*◌, ◌∷◌, ◌/◌, false, inr, ◌+◌, ◌≡◌, [], inl, arith,
  text,
}
use wintun_bindings.Failure.{IoError, Error, message, io, other}

-- A `SOCKADDR` by its family: AF_INET with the raw port and address, AF_INET6 with the raw port and
-- the sixteen bytes, or a family that the crate does not read.
pub data SockAddr : Type 0 where
  sockaddr_in : ℕ → ℕ → SockAddr
  sockaddr_in6 : ℕ → List ℕ → SockAddr
  sockaddr_other : ℕ → SockAddr

-- The octets of an address.
pub data IpAddr : Type 0 where
  v4 : List ℕ → IpAddr
  v6 : List ℕ → IpAddr

pub record SocketAddr : Type 0 where
  pub ip : IpAddr
  pub port : ℕ

-- `to_ne_bytes` of a `u32`, and `to_le_bytes`.
unfoldable pub to_ne_bytes : ℕ → List ℕ
to_ne_bytes a = (a % 256) ∷ (a / 256 % 256) ∷ (a / 65536 % 256) ∷ (a / 16777216 % 256) ∷ []

-- `u16::from_be`
unfoldable pub from_be : ℕ → ℕ
from_be x = x % 256 * 256 + x / 256

unfoldable pub sockaddr_to_socket_addr : SockAddr → IoError ⊎ SocketAddr
unfolding to_ne_bytes from_be
sockaddr_to_socket_addr (sockaddr_in port a) =
    inr (record { ip = v4 (to_ne_bytes a); port = from_be port })
sockaddr_to_socket_addr (sockaddr_in6 port octets) =
    inr (record { ip = v6 octets; port = from_be port })
sockaddr_to_socket_addr (sockaddr_other family) =
    inl (message other (text "Unsupported address type"))

-- `retrieve_ipaddr_from_socket_address`, at the error type of the crate.
unfoldable pub retrieve_ipaddr : SockAddr → Error ⊎ IpAddr
unfolding sockaddr_to_socket_addr
retrieve_ipaddr a = elim (sockaddr_to_socket_addr a) [ inr s ↦ inr s.ip | inl e ↦ inl (io e) ]

abbrev pub is_ipv4 : IpAddr → Bool
is_ipv4 (v4 octets) = true
is_ipv4 (v6 octets) = false

abbrev pub octets_of : IpAddr → List ℕ
octets_of (v4 octets) = octets
octets_of (v6 octets) = octets

abbrev pub ip_eq : IpAddr → IpAddr → Bool
ip_eq (v4 a) (v4 b) = text_eq a b
ip_eq (v6 a) (v6 b) = text_eq a b
ip_eq (v4 a) (v6 b) = false
ip_eq (v6 a) (v4 b) = false

-- The octets and the port of an IPv4 socket address are those that stand in network order in the
-- raw words, whatever the four octets and the port are.
pub sockaddr_in-network_order :
    (a b c d port : ℕ)
    → a < 256
    → b < 256
    → c < 256
    → d < 256
    → port < 65536
    → sockaddr_to_socket_addr
        (sockaddr_in (port % 256 * 256 + port / 256) (a + b * 256 + c * 65536 + d * 16777216))
      ≡ inr (record { ip = v4 (a ∷ b ∷ c ∷ d ∷ []); port = port })
unfolding sockaddr_to_socket_addr
sockaddr_in-network_order a b c d port ha hb hc hd hp = ground arith
