-- ===== src/Adapter/Lifecycle.antt =====
-- src/adapter.rs: how an adapter is created, opened, and dropped, and how a session starts.
pub mod Handles
pub mod Starting
pub mod Capacity
use wintun_bindings.Handle
use wintun_bindings.Adapter.{Adapter}
use wintun_bindings.Base.{
  ℕ, Bool, suc, ◌==◌, ◌%◌, ◌+◌, ok, if◌then◌else◌, leb, none, ◌/◌, zero, inr, ◌&&◌, Text, Option,
  inl, some, text, true, false,
}
use wintun_bindings.Failure.{Error, io, capacity_not_power_of_two, capacity_out_of_range}
use wintun_bindings.Ffi.{
  IpHelper, guid_to_win_style_string, alias_to_luid, luid_to_index, get_windows_version,
  luid_to_guid,
}
use wintun_bindings.Log.{extract_wintun_log_error, set_default_logger_if_unset}
use wintun_bindings.Session.Packet.{Session}
use wintun_bindings.System.{
  M, Platform, tell, ◌>>=◌, close_adapter, attempt, pure, fail, ◌>>◌, map_err, invoke, observe,
  open_adapter, create_adapter, start_session,
}
use wintun_bindings.Util.Guid.{win_guid_to_u128}
use wintun_bindings.Util.Utf16.{to_wide}

-- Bits that are set among the lowest `width`.
unfoldable pub count_ones : ℕ → ℕ → ℕ
count_ones zero n = 0
count_ones (suc width) n = n % 2 + count_ones width (n / 2)

-- `u32::is_power_of_two`
unfoldable pub is_power_of_two : ℕ → Bool
is_power_of_two n = count_ones 32 n == 1

abbrev pub min_ring_capacity : ℕ
min_ring_capacity = 131072

abbrev pub max_ring_capacity : ℕ
max_ring_capacity = 67108864

-- The capacity is a `u32`.
unfoldable pub validate_capacity : ℕ → M Error (Unit {0})
validate_capacity capacity =
    if leb min_ring_capacity capacity && leb capacity max_ring_capacity
    then if is_power_of_two capacity then pure tt else fail (capacity_not_power_of_two capacity)
    else fail (
        capacity_out_of_range
          (record { start = min_ring_capacity; end = max_ring_capacity; value = capacity }))

-- `Session { .. }` with a new cell for the read event.
unfoldable pub new_session : {E : Type 0} → ℕ → ℕ → Adapter → M E Session
new_session inner event adapter w = (
  ok (record {
    inner = inner;
    read_event = w.next_cell;
    shutdown_event = event;
    adapter = adapter;
  }),
  record w { cell = λ c. if c == w.next_cell then none else w.cell c; next_cell = w.next_cell + 1 },
)

module _ (p : Platform) where
  unfoldable pub start_session_on : Adapter → ℕ → M Error Session
  unfolding validate_capacity new_session extract_wintun_log_error Handle.new
  start_session_on adapter capacity = do
    validate_capacity capacity
    result ←
        invoke (start_session adapter.handle capacity)
          (λ t. p.start_session t adapter.handle capacity)
    if result == 0
        then extract_wintun_log_error p (text "WintunStartSession failed")
        else (do event ← Handle.new p true false; new_session result event adapter)

module _ (p : Platform) (ip : IpHelper) where
  -- The GUID that Windows gave the adapter, logged where it is not the one that was asked for.
  unfoldable pub settle_guid : ℕ → ℕ → M Error ℕ
  unfolding guid_to_win_style_string get_windows_version
  settle_guid guid real_guid = if guid == real_guid then pure guid else (do
    _ ← guid_to_win_style_string ip real_guid
    _ ← guid_to_win_style_string ip guid
    _ ← get_windows_version ip
    pure real_guid)

  -- The closure `call` of `create`.
  unfoldable pub describe_created : ℕ → Text → ℕ → M Error Adapter
  unfolding settle_guid alias_to_luid luid_to_index luid_to_guid
  describe_created handle name guid = do
    luid ← map_err io (alias_to_luid ip name)
    index ← map_err io (luid_to_index ip luid)
    real ← map_err io (luid_to_guid ip luid)
    settled ← settle_guid guid (win_guid_to_u128 real)
    pure (record { handle = handle; guid = settled; index = index; luid = luid })

  -- The closure `call` of `open`.
  unfoldable pub describe_opened : ℕ → Text → M Error Adapter
  unfolding alias_to_luid luid_to_index luid_to_guid
  describe_opened handle name = do
    luid ← map_err io (alias_to_luid ip name)
    index ← map_err io (luid_to_index ip luid)
    guid ← map_err io (luid_to_guid ip luid)
    pure (record { handle = handle; guid = win_guid_to_u128 guid; index = index; luid = luid })

  -- The `match` on the result of `call`, which closes the adapter on an error.
  unfoldable pub or_close : ℕ → M Error Adapter → M Error Adapter
  or_close handle call = do
    r ← attempt call
    elim r [ inr adapter ↦ pure adapter | inl e ↦ do tell (close_adapter handle); fail e ]

  -- A null handle is explained by the log of the driver.
  unfoldable pub or_explain : ℕ → Text → M Error Adapter → M Error Adapter
  unfolding or_close extract_wintun_log_error
  or_explain handle prefix call =
      if handle == 0 then extract_wintun_log_error p prefix else or_close handle call

  -- `create`, once the GUID is there.
  unfoldable pub create_with : Text → Text → ℕ → M Error Adapter
  unfolding describe_created or_explain set_default_logger_if_unset to_wide
  create_with name tunnel_type guid = do
    set_default_logger_if_unset
    handle ← invoke (create_adapter (to_wide name) (to_wide tunnel_type) guid) ip.create_adapter
    or_explain handle (text "WintunCreateAdapter failed") (describe_created handle name guid)

  unfoldable pub create : Text → Text → Option ℕ → M Error Adapter
  unfolding create_with
  create name tunnel_type (some guid) = create_with name tunnel_type guid
  create name tunnel_type none = do
    guid ← observe (λ t. win_guid_to_u128 (ip.uuid_create t))
    create_with name tunnel_type guid

  unfoldable pub open_named : Text → M Error Adapter
  unfolding describe_opened or_explain set_default_logger_if_unset to_wide
  open_named name = do
    set_default_logger_if_unset
    handle ← invoke (open_adapter (to_wide name)) ip.open_adapter
    or_explain handle (text "WintunOpenAdapter failed") (describe_opened handle name)
