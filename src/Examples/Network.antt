-- ===== src/Examples/Network.antt =====
-- Runs of the network settings of src/adapter.rs and src/util.rs.
use wintun_bindings.Adapter.Addresses.{get_netmask_of_address, get_addresses, get_gateways}
use wintun_bindings.Adapter.Addresses.Walk.{named, read_all, get_addresses-named}
use wintun_bindings.Adapter.Settings.{Network, set_address, set_netmask}
use wintun_bindings.Adapter.Settings.Commands.{Sets, set_address-keeps}
use wintun_bindings.Base.{
  ℕ, ◌≡◌, ◌⊎◌, ◌∷◌, [], true, false, none, some, List, text, ok, err, refl, ◌++◌, map,
}
use wintun_bindings.Examples.Adapters.{helper}
use wintun_bindings.Examples.Machine.{busy, adapter}
use wintun_bindings.Failure.{from_kind, not_found}
use wintun_bindings.Ffi.{guid_to_win_style_string}
use wintun_bindings.System.{empty_world}
use wintun_bindings.Util.Command.{Console, finished}
use wintun_bindings.Util.FormatMessage.{Messages}
use wintun_bindings.Util.Interfaces.{
  get_active_network_interface_gateways, AdapterAddresses, AdapterTable,
}
use wintun_bindings.Util.Interfaces.Active.{
  readable_prefix, active_sockaddrs, get_active_network_interface_gateways-prefix,
}
use wintun_bindings.Util.Mtu.{Row, InterfaceTable, get_mtu_by_index}
use wintun_bindings.Util.Mtu.Lookup.{IsLastMtu, LacksIndex, get_mtu_by_index-last}
use wintun_bindings.Util.SockAddr.{
  sockaddr_to_socket_addr, IpAddr, v4, v6, sockaddr_in, sockaddr_other,
}
use wintun_bindings.Util.Utf16.{to_wide, win_pwstr_to_string}
use wintun_bindings.Util.Utf8.{win_pstr_to_string, first_byte}

-- Every command succeeds.
abbrev console : Console
console = record {
  output = λ t name args. finished true [] [];
  lossy = λ bytes. bytes;
  display_v6 = λ octets. text "::1";
}

abbrev servers : List IpAddr
servers = v4 (8 ∷ 8 ∷ 8 ∷ 8 ∷ []) ∷ v4 (1 ∷ 1 ∷ 1 ∷ 1 ∷ []) ∷ v6 [] ∷ []

abbrev rows : List Row
rows =
    record { interface_index = 12; nl_mtu = 1500 }
    ∷ record { interface_index = 3; nl_mtu = 9000 }
    ∷ record { interface_index = 12; nl_mtu = 1420 }
    ∷ []

abbrev interfaces : InterfaceTable
interfaces = record {
  table_code = λ t v. 0;
  table_rows = λ t v. some rows;
  get_if_entry = λ t i. 0;
  set_if_entry_code = λ t i m. 0;
}

get_mtu_by_index-last_example :
    ((n : ℕ) × (get_mtu_by_index busy interfaces 12 false empty_world ≡ (ok n, empty_world))
      × IsLastMtu 12 rows n)
    ⊎ ((get_mtu_by_index busy interfaces 12 false empty_world
          ≡ (err (from_kind not_found), empty_world))
        × LacksIndex 12 rows)
get_mtu_by_index-last_example =
    get_mtu_by_index-last busy interfaces 12 false rows empty_world refl refl

abbrev pub messages : Messages
messages = record { format_count = λ t c l. 0; format_buffer = λ t c l. none; debug_text = λ s. [] }

-- The adapter itself, with an address that the crate cannot read, and another adapter.
abbrev machines : List AdapterAddresses
machines =
    record {
      adapter_name = text "{2}" ++ 0 ∷ [];
      oper_status = 1;
      if_type = 6;
      unicast = [];
      gateways = sockaddr_in 0 1 ∷ [];
    }
    ∷ record {
      adapter_name = text "{1}" ++ 0 ∷ [];
      oper_status = 1;
      if_type = 53;
      unicast = (sockaddr_in 0 16777226, 24) ∷ (sockaddr_other 17, 0) ∷ [];
      gateways = sockaddr_in 0 33554442 ∷ [];
    }
    ∷ []

abbrev table : AdapterTable
table = record { first_result = λ t. 111; second_result = λ t. 0; adapters = λ t. machines }

names_adapter : guid_to_win_style_string helper 77 empty_world ≡ (ok (text "{1}"), empty_world)
unfolding guid_to_win_style_string win_pwstr_to_string to_wide
names_adapter = refl

get_addresses-named_example :
    (get_addresses busy helper messages table adapter empty_world
      ≡ (ok (named (λ a. read_all (map (λ u. u.0) a.unicast)) (text "{1}") machines), empty_world))
    × (get_gateways busy helper messages table adapter empty_world
        ≡ (ok (named (λ a. read_all a.gateways) (text "{1}") machines), empty_world))
get_addresses-named_example =
    get_addresses-named busy helper messages table adapter (text "{1}") empty_world names_adapter
      refl refl

abbrev pub network : Network
network = record {
  platform = busy;
  helper = helper;
  messages = messages;
  adapters = table;
  interfaces = interfaces;
  masks = record { convert_code = λ n. 0; convert_mask = λ n. 16777215 };
  console = console;
  dns = record { is_loaded = false; set_code = λ t g s. 0 };
}

sets_address : (set_address network adapter (10 ∷ 0 ∷ 0 ∷ 7 ∷ []) empty_world).0 ≡ ok tt
unfolding set_address get_addresses win_pwstr_to_string to_wide get_netmask_of_address get_gateways
    win_pstr_to_string first_byte
sets_address = refl

set_address-keeps_example :
    Sets network adapter empty_world
      (10 ∷ 0 ∷ 0 ∷ 7 ∷ [])
      (set_address network adapter (10 ∷ 0 ∷ 0 ∷ 7 ∷ []) empty_world).1
set_address-keeps_example =
    set_address-keeps network adapter empty_world (10 ∷ 0 ∷ 0 ∷ 7 ∷ []) sets_address

sets_netmask : (set_netmask network adapter (255 ∷ 0 ∷ 0 ∷ 0 ∷ []) empty_world).0 ≡ ok tt
unfolding set_netmask get_addresses win_pwstr_to_string to_wide get_gateways win_pstr_to_string
    first_byte
sets_netmask = refl

get_active_network_interface_gateways-prefix_example :
    get_active_network_interface_gateways busy messages table empty_world
    ≡ (ok (readable_prefix (active_sockaddrs machines)), empty_world)
get_active_network_interface_gateways-prefix_example =
    get_active_network_interface_gateways-prefix busy messages table empty_world refl refl

-- Of the two adapters the first one is an Ethernet adapter, with one gateway.
active_found : readable_prefix (active_sockaddrs machines) ≡ v4 (1 ∷ 0 ∷ 0 ∷ 0 ∷ []) ∷ []
unfolding sockaddr_to_socket_addr
active_found = refl
