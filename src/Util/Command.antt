-- ===== src/Util/Command.antt =====
-- src/util.rs: commands that are run to their end, and those for the MTU and the DNS servers.
pub mod Servers
use wintun_bindings.Base.{
  ℕ, List, text, Text, Bool, ◌∷◌, ◌++◌, [], true, suc, false, map, ◌/◌, if◌then◌else◌, not, ltb,
  ◌+◌, length, ◌%◌, ◌==◌, zero,
}
use wintun_bindings.Failure.{IoError, Error, message, other, io}
use wintun_bindings.System.{Trace, M, ◌>>=◌, fail, pure, invoke, map_err, command}
use wintun_bindings.Util.SockAddr.{IpAddr, v4, v6, is_ipv4}

-- What becomes of a command: it is not started, or ends with an exit status and two outputs.
pub data Finished : Type 0 where
  not_started : IoError → Finished
  finished : Bool → List ℕ → List ℕ → Finished

-- `lossy` is a trimmed `from_utf8_lossy`, `display_v6` the `Display` of an IPv6 address.
pub record Console : Type 0 where
  pub output : Trace → Text → List Text → Finished
  pub lossy : List ℕ → Text
  pub display_v6 : List ℕ → Text

-- `Display` of a number of at most 20 digits.
unfoldable pub decimal_on : ℕ → ℕ → Text
decimal_on zero n = []
decimal_on (suc fuel) n =
    let front = decimal_on fuel (n / 10) in
    if ltb n 10 then (n + 48) ∷ [] else front ++ (n % 10 + 48) ∷ []

unfoldable pub decimal : ℕ → Text
unfolding decimal_on
decimal n = decimal_on 20 n

abbrev pub join_with : Text → List Text → Text
join_with separator [] = []
join_with separator (s ∷ []) = s
join_with separator (s ∷ (s' ∷ ss)) = s ++ separator ++ join_with separator (s' ∷ ss)

module _ (c : Console) where
  unfoldable pub display_ip : IpAddr → Text
  unfolding decimal
  display_ip (v4 octets) = join_with (text ".") (map decimal octets)
  display_ip (v6 octets) = c.display_v6 octets

  unfoldable pub check_output : Text → Finished → M IoError (List ℕ)
  check_output full_cmd (not_started e) = fail e
  check_output full_cmd (finished true out err_out) = pure out
  check_output full_cmd (finished false out err_out) = fail (
      message other (
        text "Run command: \""
        ++ full_cmd
        ++ text "\" not success with \""
        ++ c.lossy (if length err_out == 0 then out else err_out)
        ++ text "\""))

  unfoldable pub run_command : Text → List Text → M IoError (List ℕ)
  unfolding check_output
  run_command name args = do
    done ← invoke (command name args) (λ t. c.output t name args)
    check_output (name ++ text " " ++ join_with (text " ") args) done

  abbrev pub family_name : Bool → Text
  family_name true = text "ipv6"
  family_name false = text "ipv4"

  abbrev pub mtu_args : Text → ℕ → Bool → List Text
  mtu_args name mtu is_ipv6 =
      text "interface"
      ∷ family_name is_ipv6
      ∷ text "set"
      ∷ text "subinterface"
      ∷ (text "\"" ++ name ++ text "\"")
      ∷ (text "mtu=" ++ decimal mtu)
      ∷ []

  unfoldable pub set_adapter_mtu_cmd : Text → ℕ → Bool → M IoError (Unit {0})
  unfolding run_command decimal
  set_adapter_mtu_cmd name mtu is_ipv6 = do
    _ ← run_command (text "netsh") (mtu_args name mtu is_ipv6)
    pure tt

  abbrev pub name_arg : Text → Text
  name_arg adapter = text "name=\"" ++ adapter ++ text "\""

  abbrev pub address_arg : IpAddr → Text
  address_arg a = text "address=\"" ++ display_ip a ++ text "\""

  abbrev pub dns_args : Bool → Text → IpAddr → List Text
  dns_args is_ipv6 adapter a =
      text "interface"
      ∷ family_name is_ipv6
      ∷ text "set"
      ∷ text "dns"
      ∷ name_arg adapter
      ∷ text "source=\"static\""
      ∷ address_arg a
      ∷ []

  abbrev pub more_dns_args : Bool → Text → ℕ → IpAddr → List Text
  more_dns_args is_ipv6 adapter index a =
      text "interface"
      ∷ family_name is_ipv6
      ∷ text "add"
      ∷ text "dns"
      ∷ name_arg adapter
      ∷ (text "index=" ++ decimal index)
      ∷ address_arg a
      ∷ []

  -- The loop over the servers but the first.
  unfoldable pub add_dns_servers : Bool → Text → ℕ → List IpAddr → M Error (Unit {0})
  unfolding run_command display_ip decimal
  add_dns_servers is_ipv6 adapter index [] = pure tt
  add_dns_servers is_ipv6 adapter index (a ∷ as') = do
    _ ← map_err io (run_command (text "netsh") (more_dns_args is_ipv6 adapter index a))
    add_dns_servers is_ipv6 adapter (index + 1) as'

  unfoldable pub set_interface_dns_servers_via_cmd : Text → List IpAddr → M Error (Unit {0})
  unfolding add_dns_servers
  set_interface_dns_servers_via_cmd adapter [] = pure tt
  set_interface_dns_servers_via_cmd adapter (a ∷ as') = do
    let is_ipv6 = not (is_ipv4 a)
    _ ← map_err io (run_command (text "netsh") (dns_args is_ipv6 adapter a))
    add_dns_servers is_ipv6 adapter 2 as'
