-- ===== src/Adapter/Settings/Commands.antt =====
-- The commands of the setters of src/adapter.rs.
use wintun_bindings.Adapter.{Adapter}
use wintun_bindings.Adapter.Addresses.{
  get_name, get_addresses, get_gateways, get_netmask_of_address,
}
use wintun_bindings.Adapter.Settings.{
  as_ipv4, required, Network, find_ipv4, name_of, addresses_of, gateways_of, netmask_for,
  netmask_or_default, network_args, set_network_addresses_tuple, set_address, set_gateway,
  set_netmask, gateway_args,
}
use wintun_bindings.Base.{
  [], ℕ, ◌≡◌, ◌∷◌, Option, none, some, List, Text, text, ok, arith, refl, Outcome-cases, ◌∙◌,
  Outcome, inl, inr, ◌++◌, ap,
}
use wintun_bindings.Failure.{Error}
use wintun_bindings.System.{◌>>=◌, World, command, M}
use wintun_bindings.Util.Command.{Console, display_ip}
use wintun_bindings.Util.SockAddr.{v6, IpAddr, v4}

-- A chain that begins with a call which only reads, if it succeeds.
read_then-ok :
    {E A B : Type 0} (m : M E A) (f : A → M E B) (w : World) (b : B)
    → (m w).1 ≡ w
    → ((m >>= f) w).0 ≡ ok b
    → (a : A) × ((m w).0 ≡ ok a) × ((m >>= f) w ≡ f a w)
read_then-ok m f w b same e = elim (Outcome-cases (m w).0) [
  | inl (a, o) ↦ (a, o, ground arith)
  | inr stop ↦ absurd (ground arith)
]

abbrev pub AllIpv6 : List IpAddr → Type 0
AllIpv6 [] = Unit
AllIpv6 (a ∷ as') = ((octets : List ℕ) × (a ≡ v6 octets)) × AllIpv6 as'

-- The first IPv4 address of a list, or none.
abbrev pub IsFirstIpv4 : List IpAddr → Option IpAddr → Type 0
IsFirstIpv4 found none = AllIpv6 found
IsFirstIpv4 found (some a) =
    (octets : List ℕ) × (before : List IpAddr) × (after : List IpAddr) × (a ≡ v4 octets)
    × (found ≡ before ++ v4 octets ∷ after)
    × AllIpv6 before

later-IsFirstIpv4 :
    (octets : List ℕ) (found : List IpAddr) (first : Option IpAddr)
    → IsFirstIpv4 found first
    → IsFirstIpv4 (v6 octets ∷ found) first
later-IsFirstIpv4 octets found none h = ((octets, refl), h)
later-IsFirstIpv4 octets found (some a) (o, before, after, same, splits, none_before) = (
  o,
  v6 octets ∷ before,
  after,
  same,
  ap (λ xs. v6 octets ∷ xs) splits,
  ((octets, refl), none_before),
)

find_ipv4-IsFirstIpv4 : (found : List IpAddr) → IsFirstIpv4 found (find_ipv4 found)
find_ipv4-IsFirstIpv4 [] = tt
find_ipv4-IsFirstIpv4 (v4 octets ∷ as') = (octets, [], as', refl, refl, tt)
find_ipv4-IsFirstIpv4 (v6 octets ∷ as') =
    later-IsFirstIpv4 octets as' (find_ipv4 as') (find_ipv4-IsFirstIpv4 as')

abbrev pub gateway_words : Console → Option IpAddr → List Text
gateway_words c none = []
gateway_words c (some gateway) = (text "gateway=" ++ display_ip c gateway) ∷ []

-- The command that sets an IPv4 address, but for the gateway at its end.
abbrev pub address_words : Console → Text → List ℕ → IpAddr → List Text → List Text
address_words c name octets mask gateway =
    text "interface"
    ∷ text "ipv4"
    ∷ text "set"
    ∷ text "address"
    ∷ (text "name=\"" ++ name ++ text "\"")
    ∷ text "source=static"
    ∷ (text "address=" ++ display_ip c (v4 octets))
    ∷ (text "mask=" ++ display_ip c mask)
    ∷ gateway

module _ (n : Network) (adapter : Adapter) (w : World) where
  get_addresses-same : (addresses_of n adapter w).1 ≡ w
  unfolding get_addresses
  get_addresses-same = ground arith

  get_gateways-same : (gateways_of n adapter w).1 ≡ w
  unfolding get_gateways
  get_gateways-same = ground arith

  netmask-same : (target : IpAddr) → (netmask_for n adapter target w).1 ≡ w
  unfolding get_netmask_of_address
  netmask-same target = ground arith

  netmask_or_default-same : (old : Option IpAddr) → (netmask_or_default n adapter old w).1 ≡ w
  netmask_or_default-same none = refl
  netmask_or_default-same (some old) = netmask-same old

  get_name-same : (name_of n adapter w).1 ≡ w
  unfolding get_name
  get_name-same = ground arith

  -- A configuration that was set with one command, with the name that the adapter has.
  abbrev Configures : World → IpAddr → IpAddr → Option IpAddr → Type 0
  Configures w' address mask gateway =
      (name : Text) × ((name_of n adapter w).0 ≡ ok name)
      × (w'.trace ≡ command (text "netsh") (network_args n name address mask gateway) ∷ w.trace)

  -- The netmask that goes with an old address, or without one.
  abbrev pub MaskOf : Option IpAddr → IpAddr → Type 0
  MaskOf none mask = mask ≡ v4 (255 ∷ 255 ∷ 255 ∷ 0 ∷ [])
  MaskOf (some old) mask = (netmask_for n adapter old w).0 ≡ ok mask

  netmask_or_default-MaskOf :
      (old : Option IpAddr) (mask : IpAddr)
      → (netmask_or_default n adapter old w).0 ≡ ok mask
      → MaskOf old mask
  netmask_or_default-MaskOf none mask e = ground (arith, e)
  netmask_or_default-MaskOf (some old) mask e = e

  gateway_words-same :
      (gateway : Option IpAddr) → gateway_args n gateway ≡ gateway_words n.console gateway
  gateway_words-same none = refl
  gateway_words-same (some gateway) = refl

  required-same : (found : Option IpAddr) → (required n found w).1 ≡ w
  required-same none = refl
  required-same (some address) = refl

  required-some :
      (found : Option IpAddr) (address : IpAddr)
      → (required n found w).0 ≡ ok address
      → found ≡ some address
  required-some none address e = absurd (ground arith)
  required-some (some a) address e = ground arith

  set_network-Configures :
      (address mask : IpAddr) (gateway : Option IpAddr) (r : Outcome Error (Unit {0}) × World)
      → r ≡ set_network_addresses_tuple n adapter address mask gateway w
      → r.0 ≡ ok tt
      → Configures r.1 address mask gateway
  unfolding set_network_addresses_tuple
  set_network-Configures address mask gateway r run e =
      let (name, o, run') = read_then-ok (name_of n adapter) _ w _ get_name-same (rw run at e) in
      (name, o, ground (arith, run, run'))

  -- What `set_address` has done where it succeeds, with the addresses and the gateways that Windows gave,
  -- the old address, the netmask and the gateway that it keeps, and the name of the adapter.
  abbrev pub Sets : List ℕ → World → Type 0
  Sets octets w' =
      (found : List IpAddr) × (gateways : List IpAddr) × (old : Option IpAddr) × (gateway : Option
        IpAddr)
      × (mask : IpAddr) × (name : Text) × ((addresses_of n adapter w).0 ≡ ok found)
      × ((gateways_of n adapter w).0 ≡ ok gateways)
      × ((name_of n adapter w).0 ≡ ok name)
      × IsFirstIpv4 found old
      × IsFirstIpv4 gateways gateway
      × MaskOf old mask
      × (w'.trace
          ≡ command (text "netsh")
              (address_words n.console name octets mask (gateway_words n.console gateway))
            ∷ w.trace)

  -- `set_address`, if it succeeds, runs one command, for the name that the adapter has, which sets the
  -- address, and keeps the first IPv4 gateway, if there is one, and the netmask of the first IPv4 address
  -- that Windows gives for the adapter; without such an address the netmask is 255.255.255.0.
  pub set_address-keeps :
      (octets : List ℕ)
      → (set_address n adapter octets w).0 ≡ ok tt
      → Sets octets (set_address n adapter octets w).1
  unfolding set_address
  set_address-keeps octets e =
      let (found, a, run₁) = read_then-ok (addresses_of n adapter) _ w _ get_addresses-same e in
      let (mask, b, run₂) =
        read_then-ok (netmask_or_default n adapter (find_ipv4 found)) _ w _
          (netmask_or_default-same (find_ipv4 found)) (rw run₁ at e) in
      let (gateways, c, run₃) =
        read_then-ok (gateways_of n adapter) _ w _ get_gateways-same (rw (run₁, run₂) at e) in
      let (name, d, run) =
        set_network-Configures (v4 octets) mask (find_ipv4 gateways) _ (run₁ ∙ run₂ ∙ run₃) e in
      (
        found,
        gateways,
        find_ipv4 found,
        find_ipv4 gateways,
        mask,
        name,
        a,
        c,
        d,
        find_ipv4-IsFirstIpv4 found,
        find_ipv4-IsFirstIpv4 gateways,
        netmask_or_default-MaskOf (find_ipv4 found) mask b,
        run
            ∙ ap
                (λ gs.
                  command (text "netsh") (address_words n.console name octets mask gs) ∷ w.trace)
                (gateway_words-same (find_ipv4 gateways)),
      )

  -- `set_gateway`, if it succeeds, runs one command, which sets the gateway or leaves it out, and keeps
  -- the first IPv4 address that Windows gives for the adapter, with its netmask.
  set_gateway-keeps :
      (gateway : Option (List ℕ))
      → (set_gateway n adapter gateway w).0 ≡ ok tt
      → (found : List IpAddr) × (address : IpAddr) × (mask : IpAddr) × ((addresses_of n adapter w).0
          ≡ ok found)
        × (find_ipv4 found ≡ some address)
        × ((netmask_for n adapter address w).0 ≡ ok mask)
        × Configures (set_gateway n adapter gateway w).1 address mask (as_ipv4 n gateway)
  unfolding set_gateway
  set_gateway-keeps gateway e =
      let (found, a, run₁) = read_then-ok (addresses_of n adapter) _ w _ get_addresses-same e in
      let (address, b, run₂) =
        read_then-ok (required n (find_ipv4 found)) _ w _ (required-same (find_ipv4 found))
          (rw run₁ at e) in
      let (mask, c, run₃) =
        read_then-ok (netmask_for n adapter address) _ w _ (netmask-same address)
          (rw (run₁, run₂) at e) in
      (
        found,
        address,
        mask,
        a,
        required-some (find_ipv4 found) address b,
        c,
        set_network-Configures address mask (as_ipv4 n gateway) _ (run₁ ∙ run₂ ∙ run₃) e,
      )

  -- `set_netmask`, if it succeeds, runs one command, which sets the netmask, and keeps the first IPv4
  -- address and the first IPv4 gateway that Windows gives for the adapter.
  set_netmask-keeps :
      (mask : List ℕ)
      → (set_netmask n adapter mask w).0 ≡ ok tt
      → (found : List IpAddr) × (address : IpAddr) × (gateways : List IpAddr) × ((addresses_of n
            adapter w).0
          ≡ ok found)
        × (find_ipv4 found ≡ some address)
        × ((gateways_of n adapter w).0 ≡ ok gateways)
        × Configures (set_netmask n adapter mask w).1 address (v4 mask) (find_ipv4 gateways)
  unfolding set_netmask
  set_netmask-keeps mask e =
      let (found, a, run₁) = read_then-ok (addresses_of n adapter) _ w _ get_addresses-same e in
      let (address, b, run₂) =
        read_then-ok (required n (find_ipv4 found)) _ w _ (required-same (find_ipv4 found))
          (rw run₁ at e) in
      let (gateways, c, run₃) =
        read_then-ok (gateways_of n adapter) _ w _ get_gateways-same (rw (run₁, run₂) at e) in
      (
        found,
        address,
        gateways,
        a,
        required-some (find_ipv4 found) address b,
        c,
        set_network-Configures address (v4 mask) (find_ipv4 gateways) _ (run₁ ∙ run₂ ∙ run₃) e,
      )
