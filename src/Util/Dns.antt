-- ===== src/Util/Dns.antt =====
-- src/util.rs: the DNS servers of an interface, set with a function that is loaded when it is there.
use wintun_bindings.Base.{ℕ, Bool, List, text, map, ◌==◌, if◌then◌else◌, not}
use wintun_bindings.Failure.{Error, io, string, from_raw_os_error}
use wintun_bindings.System.{M, ◌>>=◌, pure, fail, invoke, Trace, set_interface_dns_settings}
use wintun_bindings.Util.Command.{Console, display_ip, join_with}
use wintun_bindings.Util.SockAddr.{IpAddr}
use wintun_bindings.Util.Utf16.{to_wide}

-- `SetInterfaceDnsSettings`: whether iphlpapi.dll has it, and its code for a GUID and a wide string.
pub record DnsApi : Type 0 where
  pub is_loaded : Bool
  pub set_code : Trace → ℕ → List ℕ → ℕ

module _ (c : Console) (dns : DnsApi) where
  unfoldable pub set_interface_dns_servers : ℕ → List IpAddr → M Error (Unit {0})
  unfolding display_ip to_wide
  set_interface_dns_servers guid servers =
      if not dns.is_loaded
      then fail (string (text "Failed to load function SetInterfaceDnsSettings"))
      else (do
        let wide = to_wide (join_with (text ",") (map (display_ip c) servers))
        code ← invoke (set_interface_dns_settings guid wide) (λ t. dns.set_code t guid wide)
        if code == 0 then pure tt else fail (io (from_raw_os_error code)))
