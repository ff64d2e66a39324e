-- ===== src/Programs/Echo.antt =====
-- examples/udp-echo.rs: a UDP packet that is received is sent back to where it came from.
pub mod Answers
use wintun_bindings.Base.{
  ℕ, ◌+◌, ◌*◌, ◌%◌, ◌^◌, Bool, List, ◌∷◌, Option, none, some, ◌⊎◌, inl, inr, Text, text, length,
  if◌then◌else◌, true, false,
}
use wintun_bindings.Failure.{Error, io, string, IoError}
use wintun_bindings.Session.Calls.{allocate, send_packet_of}
use wintun_bindings.Session.Loops.{receive_blocking}
use wintun_bindings.Session.Packet.{Session, bytes, copy_from_slice, drop_packet}
use wintun_bindings.System.{
  M, ◌>>=◌, ◌>>◌, pure, fail, panics, invoke, map_err, from_result, unwind, Trace, Platform,
  acquire_context, gen_random, release_context,
}
use wintun_bindings.Util.LastError.{fail_with_os_error}
use wintun_bindings.Util.SockAddr.{IpAddr, v4, v6, SocketAddr}

pub record NaiveUdpPacket : Type 0 where
  pub src_addr : SocketAddr
  pub dst_addr : SocketAddr
  -- `data`
  pub content : List ℕ

-- The views of the crate `packet` on an IP packet and on a UDP packet.
pub data IpPacket : Type 0 where
  -- The source, the destination, the payload, and whether the protocol is UDP.
  ip_v4 : List ℕ → List ℕ → List ℕ → Bool → IpPacket
  ip_v6 : IpPacket

pub record UdpPacket : Type 0 where
  pub source : ℕ
  pub destination : ℕ
  pub payload : List ℕ

-- The crate `packet`, with its errors as texts. `describe` is the text of a packet that is no UDP packet
-- of IPv4; `build` is the chain of its builder, by the id, the addresses, the ports and the data.
pub record PacketCrate : Type 0 where
  pub as_packet : List ℕ → Text ⊎ IpPacket
  pub udp_packet : List ℕ → Text ⊎ UdpPacket
  pub describe : IpPacket → Text
  pub build : ℕ → List ℕ → List ℕ → ℕ → ℕ → List ℕ → Text ⊎ List ℕ

-- The random provider of Windows. A call that fails gives nothing.
pub record RandomApi : Type 0 where
  pub acquire : Trace → Option ℕ
  pub random_bytes : Trace → ℕ → ℕ → Option (List ℕ)
  pub release : Trace → ℕ → Bool

-- `NaiveUdpPacket::new`
abbrev pub new_packet : SocketAddr → SocketAddr → List ℕ → NaiveUdpPacket
new_packet src dst content = record { src_addr = src; dst_addr = dst; content = content }

module _ (crate_packet : PacketCrate) where
  unfoldable pub extract_udp_packet : List ℕ → Text ⊎ NaiveUdpPacket
  extract_udp_packet packet = elim (crate_packet.as_packet packet) [
    | inl e ↦ inl e
    | inr (ip_v4 src dst payload true) ↦ elim (crate_packet.udp_packet payload) [
      | inl e ↦ inl e
      | inr udp ↦ inr (
          new_packet (record { ip = v4 src; port = udp.source })
            (record { ip = v4 dst; port = udp.destination }) udp.payload)
    ]
    | inr (ip_v4 src dst payload false) ↦ inl (crate_packet.describe (ip_v4 src dst payload false))
    | inr ip_v6 ↦ inl (crate_packet.describe ip_v6)
  ]

-- The addresses of the packet, swapped.
abbrev pub swapped : NaiveUdpPacket → NaiveUdpPacket
swapped udp_packet = new_packet udp_packet.dst_addr udp_packet.src_addr udp_packet.content

abbrev pub require_ipv4 : IpAddr → M Error (List ℕ)
require_ipv4 (v4 octets) = pure octets
require_ipv4 (v6 octets) = fail (string (text "IPv6 addresses are not supported"))

-- `u16::from_ne_bytes([v[0], v[1]])`, on a little-endian machine.
abbrev pub id_of : List ℕ → M Error ℕ
id_of (a ∷ (b ∷ rest)) = pure (a + 256 * b)
id_of v = panics

module _ (p : Platform) (random : RandomApi) where
  abbrev pub or_last_os_error : {A : Type 0} → Option A → M IoError A
  or_last_os_error (some a) = pure a
  or_last_os_error none = fail_with_os_error p

  unfoldable pub generate_random_bytes : ℕ → M IoError (List ℕ)
  unfolding fail_with_os_error
  generate_random_bytes len = do
    acquired ← invoke acquire_context random.acquire
    h_prov ← or_last_os_error acquired
    filled ← invoke (gen_random h_prov len) (λ t. random.random_bytes t h_prov len)
    buf ← or_last_os_error filled
    released ← invoke (release_context h_prov) (λ t. random.release t h_prov)
    if released then pure buf else fail_with_os_error p

-- A round of the writer, with what gives it two random bytes, builds a packet, and sends one.
unfoldable pub write_with :
    M IoError (List ℕ)
    → (ℕ → List ℕ → List ℕ → ℕ → ℕ → List ℕ → Text ⊎ List ℕ)
    → (List ℕ → M Error (Unit {0}))
    → NaiveUdpPacket
    → M Error (Unit {0})
write_with random_two build deliver resp = do
  src ← require_ipv4 resp.src_addr.ip
  dst ← require_ipv4 resp.dst_addr.ip
  v ← map_err io random_two
  id ← id_of v
  ip_packet ←
      map_err string
        (from_result (build id src dst resp.src_addr.port resp.dst_addr.port resp.content))
  deliver ip_packet

-- What the reader makes of a packet.
abbrev pub ask : Text ⊎ NaiveUdpPacket → Text ⊎ NaiveUdpPacket
ask (inl err_text) = inl err_text
ask (inr request) = inr (swapped request)

module _ (p : Platform) (random : RandomApi) (crate_packet : PacketCrate) (s : Session) where
  -- A round of the reader: what it sends to the writer, or the text that it prints. Fuel is that of
  -- `receive_blocking`.
  unfoldable pub read_round : ℕ → M Error (Option (Text ⊎ NaiveUdpPacket))
  unfolding extract_udp_packet bytes drop_packet
  read_round fuel = do
    received ← receive_blocking p s fuel
    elim received [
      | none ↦ pure none
      | some packet ↦ do
        content ← bytes p packet
        drop_packet p packet
        pure (some (ask (extract_udp_packet crate_packet content)))
    ]

  -- The packet that is built is copied into one of the session, and sent. Where the copy panics the
  -- packet is dropped as the stack unwinds.
  unfoldable pub send_built : List ℕ → M Error (Unit {0})
  unfolding allocate copy_from_slice drop_packet send_packet_of
  send_built ip_packet = do
    write_pack ← allocate p s (length ip_packet % 2 ^ 16)
    unwind (drop_packet p write_pack) (copy_from_slice p write_pack ip_packet)
    send_packet_of p s write_pack

  -- A round of the writer.
  unfoldable pub write_round : NaiveUdpPacket → M Error (Unit {0})
  unfolding generate_random_bytes send_built write_with
  write_round resp =
      write_with (generate_random_bytes p random 2) crate_packet.build send_built resp
