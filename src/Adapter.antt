-- ===== src/Adapter.antt =====
-- src/adapter.rs: the adapter, a module for each group of its functions. The functions of wintun.dll
-- that an adapter holds a pointer to are the `Platform` that each definition takes.
pub mod Lifecycle
pub mod Registry
pub mod Addresses
pub mod Settings
use wintun_bindings.Base.{ℕ}

-- A `NET_LUID_LH` is its 64-bit value, and a GUID its value as a `u128`.
pub record Adapter : Type 0 where
  pub handle : ℕ
  pub guid : ℕ
  pub index : ℕ
  pub luid : ℕ
