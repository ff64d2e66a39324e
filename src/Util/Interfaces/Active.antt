-- ===== src/Util/Interfaces/Active.antt =====
-- The gateways that `get_active_network_interface_gateways` of src/util.rs finds.
use mathlib.Core.List.{append_assoc, append-nil}
use wintun_bindings.Base.{
  ◌==◌, ◌||◌, ◌&&◌, ◌≡◌, Bool, true, false, List, [], ◌∷◌, ◌++◌, inl, inr, ok, if◌then◌else◌, arith,
  refl,
}
use wintun_bindings.System.{Platform, World}
use wintun_bindings.Util.FormatMessage.{Messages}
use wintun_bindings.Util.Interfaces.{
  AdapterAddresses, AdapterTable, walk, push_gateways, active_gateways,
  get_active_network_interface_gateways,
}
use wintun_bindings.Util.SockAddr.{
  SockAddr, IpAddr, sockaddr_to_socket_addr, sockaddr_in, sockaddr_in6, sockaddr_other, v4, v6,
  to_ne_bytes,
}

-- The addresses up to the first that cannot be read, and whether all can be read.
abbrev pub readable_prefix : List SockAddr → List IpAddr
readable_prefix [] = []
readable_prefix (g ∷ gs) = elim (sockaddr_to_socket_addr g) [
  | inr a ↦ a.ip ∷ readable_prefix gs
  | inl e ↦ []
]

abbrev pub all_readable : List SockAddr → Bool
all_readable [] = true
all_readable (g ∷ gs) = elim (sockaddr_to_socket_addr g) [ inr a ↦ all_readable gs | inl e ↦ false ]

-- The gateways of all adapters that are up and are Ethernet or Wi-Fi, one after the other.
abbrev pub active_sockaddrs : List AdapterAddresses → List SockAddr
active_sockaddrs [] = []
active_sockaddrs (a ∷ as') =
    if (a.oper_status == 1) && ((a.if_type == 71) || (a.if_type == 6))
    then a.gateways ++ active_sockaddrs as'
    else active_sockaddrs as'

readable_prefix-append :
    (gs rest : List SockAddr)
    → readable_prefix (gs ++ rest)
      ≡ readable_prefix gs ++ (if all_readable gs then readable_prefix rest else [])
readable_prefix-append [] rest = refl
readable_prefix-append (g ∷ gs) rest = ground (arith, readable_prefix-append gs rest)

module _ (p : Platform) (m : Messages) (table : AdapterTable) where
  push_gateways-eq :
      (gs : List SockAddr) (addrs : List IpAddr)
      → push_gateways p m table gs addrs ≡ (all_readable gs, addrs ++ readable_prefix gs)
  unfolding push_gateways sockaddr_to_socket_addr
  push_gateways-eq [] addrs = rw append-nil
  push_gateways-eq (sockaddr_in port a ∷ gs) addrs =
      rw (push_gateways-eq gs (addrs ++ v4 (to_ne_bytes a) ∷ []), append_assoc)
  push_gateways-eq (sockaddr_in6 port octets ∷ gs) addrs =
      rw (push_gateways-eq gs (addrs ++ v6 octets ∷ []), append_assoc)
  push_gateways-eq (sockaddr_other family ∷ gs) addrs = rw append-nil

  walk-active :
      (as' : List AdapterAddresses) (addrs : List IpAddr)
      → walk (active_gateways p m table) as' addrs ≡ addrs ++ readable_prefix (active_sockaddrs as')
  unfolding walk active_gateways
  walk-active [] addrs = rw append-nil
  walk-active (a ∷ as') addrs = ground (
    arith,
    push_gateways-eq a.gateways addrs,
    readable_prefix-append a.gateways (active_sockaddrs as'),
    walk-active as' addrs,
    walk-active as' (addrs ++ readable_prefix a.gateways),
    append_assoc addrs (readable_prefix a.gateways) (readable_prefix (active_sockaddrs as')),
    append-nil (readable_prefix a.gateways),
  )

  -- Where Windows answers both calls, `get_active_network_interface_gateways` gives the gateways of all
  -- adapters that are up and are Ethernet or Wi-Fi, in the order of Windows, up to the first one that
  -- cannot be read, at which it stops without an error; and it changes nothing.
  pub get_active_network_interface_gateways-prefix :
      (w : World)
      → table.first_result w.trace ≡ 111
      → table.second_result w.trace ≡ 0
      → get_active_network_interface_gateways p m table w
        ≡ (ok (readable_prefix (active_sockaddrs (table.adapters w.trace))), w)
  unfolding get_active_network_interface_gateways
  get_active_network_interface_gateways-prefix w first second =
      ground (arith, walk-active (table.adapters w.trace) [])
