-- ===== src/Examples/Machines.antt =====
-- Runs of the registry cleanup of src/adapter.rs and of the interface names of src/util.rs.
use wintun_bindings.Adapter.Registry.{Registry, drop_adapter}
use wintun_bindings.Adapter.Registry.Cleanup.{Deletions, drop_adapter-Deletions}
use wintun_bindings.Adapter.Settings.{name_of}
use wintun_bindings.Base.{
  ℕ, ◌≤◌, ◌≡◌, ◌≢◌, ◌⊎◌, ◌∷◌, [], List, Option, none, some, inr, ok, err, Text, text, true, arith,
  ◌==◌, if◌then◌else◌, text_eq,
}
use wintun_bindings.Examples.Machine.{busy, adapter}
use wintun_bindings.Examples.Network.{network, messages}
use wintun_bindings.Failure.{Error, IoError}
use wintun_bindings.System.{Trace, close_adapter, empty_world}
use wintun_bindings.Util.InterfaceInfo.{IndexMap, InfoApi, get_interface_info}
use wintun_bindings.Util.InterfaceInfo.Guids.{named_prefix, get_interface_info-prefix}
use wintun_bindings.Util.Utf16.{to_wide}

-- Two keys, of which the second is that of the adapter.
abbrev key_at : ℕ → Option (IoError ⊎ Text)
key_at i =
    if i == 0 then some (inr (text "{A}")) else if i == 1 then some (inr (text "{B}")) else none

abbrev pub registry : Registry
registry = record {
  open_local_machine = λ t path. inr 1;
  enum_keys = λ t key i. key_at i;
  open_subkey = λ t key name. inr (if text_eq name (text "{B}") then 2 else 3);
  get_value = λ t key value. inr (if key == 2 then text "tun" else text "Ethernet");
}

pub ends : (t : Trace) (key i : ℕ) → 2 ≤ i → registry.enum_keys t key i ≡ none
ends t key i h = ground arith

drop_adapter-Deletions_example :
    let r = drop_adapter network registry 3 adapter empty_world in
    let closed = close_adapter adapter.handle ∷ [] in
    (r.0 ≡ ok (some tt))
    × ((r.1.trace ≡ closed)
        ⊎ ((dev_name : Text) × (network.platform.winreg ≡ true)
            × ((name_of network adapter empty_world).0 ≡ ok dev_name)
            × Deletions registry dev_name closed r.1.trace))
drop_adapter-Deletions_example =
    drop_adapter-Deletions network registry 2 ends 3 adapter empty_world (omega arith)

-- The second interface has no GUID.
abbrev found_interfaces : List IndexMap
found_interfaces =
    record { index = 12; name = to_wide (text "\\DEVICE\\TCPIP_{29C47F55}") }
    ∷ record { index = 13; name = to_wide (text "loopback") }
    ∷ []

abbrev info : InfoApi
info = record {
  first_result = λ t. 122;
  wanted_len = λ t. 524;
  second_result = λ t n. 0;
  interfaces = λ t n. found_interfaces;
}

get_interface_info-prefix_example :
    let r = (get_interface_info busy messages (λ s. []) info empty_world).0 in
    (((info.first_result [] ≡ 0) ⊎ (info.first_result [] ≡ 122))
      × (info.second_result [] 524 ≡ 0)
      × (r ≡ ok (named_prefix (λ s. []) found_interfaces)))
    ⊎ ((((info.first_result [] ≢ 0) × (info.first_result [] ≢ 122))
          ⊎ (info.second_result [] 524 ≢ 0))
        × ((e : Error) × (r ≡ err e)))
get_interface_info-prefix_example =
    get_interface_info-prefix busy messages (λ s. []) info empty_world
