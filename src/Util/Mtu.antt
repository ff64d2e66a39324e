-- ===== src/Util/Mtu.antt =====
-- src/util.rs: the MTU of an interface, read from the table of interfaces and set by command or call.
pub mod Lookup
use wintun_bindings.Base.{
  ℕ, List, Bool, Option, true, if◌then◌else◌, ◌==◌, Text, none, some, inr, ◌%◌, inl, ◌^◌,
}
use wintun_bindings.Failure.{IoError, message, from_kind, other, not_found, from_raw_os_error}
use wintun_bindings.Ffi.{IpHelper, alias_to_luid, luid_to_index}
use wintun_bindings.System.{
  Trace, Platform, M, ◌>>=◌, fail, observe, invoke, attempt, pure, set_if_entry,
}
use wintun_bindings.Util.Command.{Console, set_adapter_mtu_cmd}
use wintun_bindings.Util.FormatMessage.{Messages, format_message}
use wintun_bindings.Util.Interfaces.{walk}

-- `MIB_IPINTERFACE_ROW`
pub record Row : Type 0 where
  pub interface_index : ℕ
  pub nl_mtu : ℕ

-- `GetIpInterfaceTable` for a family, with its code and its rows, where nothing is a null pointer;
-- `GetIfEntry` and `SetIfEntry`, with their codes.
pub record InterfaceTable : Type 0 where
  pub table_code : Trace → Bool → ℕ
  pub table_rows : Trace → Bool → Option (List Row)
  pub get_if_entry : Trace → ℕ → ℕ
  pub set_if_entry_code : Trace → ℕ → ℕ → ℕ

module _ (p : Platform) (table : InterfaceTable) where
  unfoldable pub get_ip_interface_table :
      {S : Type 0} → (Row → S → Bool × S) → Bool → S → M IoError S
  unfolding walk
  get_ip_interface_table callback is_ipv6 s = do
    code ← observe (λ t. table.table_code t is_ipv6)
    if code == 0
        then (do
          rows ← observe (λ t. table.table_rows t is_ipv6)
          elim rows [ some rs ↦ pure (walk callback rs s) | none ↦ fail (from_kind not_found) ])
        else (do e ← observe p.last_error; fail (from_raw_os_error e))

  abbrev pub remember : ℕ → Row → Option ℕ → Bool × Option ℕ
  remember index row mtu = (true, if row.interface_index == index then some row.nl_mtu else mtu)

  unfoldable pub get_mtu_by_index : ℕ → Bool → M IoError ℕ
  unfolding get_ip_interface_table
  get_mtu_by_index index is_ipv6 = do
    mtu ← get_ip_interface_table (remember index) is_ipv6 none
    elim mtu [ some n ↦ pure n | none ↦ fail (from_kind not_found) ]

module _ (p : Platform) (ip : IpHelper) (m : Messages) (table : InterfaceTable) (c : Console) where
  unfoldable pub fail_with_message : ℕ → M IoError (Unit {0})
  unfolding format_message
  fail_with_message code = do info ← format_message p m code; fail (message other info)

  -- The MTU is cast to `u32`.
  unfoldable pub set_entry : ℕ → ℕ → M IoError (Unit {0})
  unfolding fail_with_message
  set_entry index mtu = do
    v0 ← observe (λ t. table.get_if_entry t index)
    if v0 == 0
        then (do
          v2 ←
              invoke (set_if_entry index (mtu % 2 ^ 32))
                (λ t. table.set_if_entry_code t index (mtu % 2 ^ 32))
          if v2 == 0 then pure tt else fail_with_message v2)
        else fail_with_message v0

  unfoldable pub set_adapter_mtu_api : Text → ℕ → M IoError (Unit {0})
  unfolding alias_to_luid luid_to_index set_entry
  set_adapter_mtu_api name mtu = do
    luid ← alias_to_luid ip name
    index ← luid_to_index ip luid
    set_entry index mtu

  -- The call is tried where the command fails.
  unfoldable pub set_adapter_mtu : Text → ℕ → Bool → M IoError (Unit {0})
  unfolding set_adapter_mtu_cmd set_adapter_mtu_api
  set_adapter_mtu name mtu is_ipv6 = do
    r ← attempt (set_adapter_mtu_cmd c name mtu is_ipv6)
    elim r [ inr done ↦ pure tt | inl e ↦ set_adapter_mtu_api name mtu ]
