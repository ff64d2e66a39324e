-- ===== src/Examples/Adapters.antt =====
-- Runs of src/adapter.rs and src/log.rs.
use wintun_bindings.Adapter.{Adapter}
use wintun_bindings.Adapter.Lifecycle.{create, open_named, validate_capacity}
use wintun_bindings.Adapter.Lifecycle.Capacity.{validate_capacity_iff}
use wintun_bindings.Adapter.Lifecycle.Handles.{OpensOne, opening-OpensOne}
use wintun_bindings.Adapter.Lifecycle.Starting.{StartsOne, start_session_on-branches}
use wintun_bindings.Base.{ℕ, ◌≡◌, ◌∷◌, [], ◌≤◌, ◌^◌, ok, some, none, text, arith, refl, ◌↔◌}
use wintun_bindings.Examples.Machine.{busy, no_events, adapter}
use wintun_bindings.Ffi.{IpHelper}
use wintun_bindings.Log.{get_worst_log_msg}
use wintun_bindings.Log.Worst.{get_worst_log_msg-IsWorst, IsWorst}
use wintun_bindings.System.{empty_world, error, LogItem, warn}
use wintun_bindings.Util.Guid.{Guid, win_guid_to_u128}
use wintun_bindings.Util.Utf16.{win_pwstr_to_string, to_wide}

abbrev pub guid : Guid
guid = record { data1 = 1; data2 = 2; data3 = 3; data4 = 0 ∷ 0 ∷ 0 ∷ 0 ∷ 0 ∷ 0 ∷ 0 ∷ 4 ∷ [] }

abbrev pub helper : IpHelper
helper = record {
  create_adapter = λ t. 3;
  open_adapter = λ t. 0;
  luid_to_alias_code = λ t luid. 0;
  luid_to_alias_buffer = λ t luid. to_wide (text "tun");
  alias_to_luid_code = λ t s. 0;
  alias_to_luid_value = λ t s. 9;
  luid_to_index_code = λ t luid. 0;
  luid_to_index_value = λ t luid. 12;
  luid_to_guid_code = λ t luid. 0;
  luid_to_guid_value = λ t luid. guid;
  uuid_create = λ t. guid;
  string_from_guid = λ g. to_wide (text "{1}");
  windows_version = some (10, 0, 19045);
  debug = λ s. [];
}

-- The interface has no index: ERROR_NOT_FOUND.
abbrev broken : IpHelper
broken = record helper { luid_to_index_code = λ t luid. 1168 }

abbrev created : Adapter
created = record { handle = 3; guid = win_guid_to_u128 guid; index = 12; luid = 9 }

creates : (create busy helper (text "tun") (text "t") (some 5) empty_world).0 ≡ ok created
unfolding create win_guid_to_u128 win_pwstr_to_string
creates = refl

validate_capacity_iff_example :
    ((validate_capacity 131072 empty_world).1 ≡ empty_world)
    × ((validate_capacity 131072 empty_world).0 ≡ ok tt
        ↔ ((k : ℕ) × (17 ≤ k) × (k ≤ 26) × (131072 ≡ 2 ^ k)))
validate_capacity_iff_example = validate_capacity_iff 131072 empty_world (omega arith)

abbrev warning : LogItem
warning = record { level = warn; msg = text "w"; timestamp = 1 }

abbrev failure : LogItem
failure = record { level = error; msg = text "e"; timestamp = 2 }

get_worst_log_msg-IsWorst_example :
    ((get_worst_log_msg (failure ∷ warning ∷ []) ≡ none) → failure ∷ warning ∷ [] ≡ [])
    × ((item : LogItem)
        → get_worst_log_msg (failure ∷ warning ∷ []) ≡ some item
        → IsWorst (failure ∷ warning ∷ []) item)
get_worst_log_msg-IsWorst_example = get_worst_log_msg-IsWorst (failure ∷ warning ∷ [])

opening-OpensOne_example :
    OpensOne broken empty_world (create busy broken (text "tun") (text "t") (some 5) empty_world)
    × OpensOne broken empty_world (open_named busy broken (text "tun") empty_world)
opening-OpensOne_example = opening-OpensOne busy broken (text "tun") (text "t") (some 5) empty_world

start_session_on-branches_example : StartsOne no_events adapter 131072 empty_world
start_session_on-branches_example = start_session_on-branches no_events adapter 131072 empty_world
