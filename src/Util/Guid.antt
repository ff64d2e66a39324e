-- ===== src/Util/Guid.antt =====
-- src/util.rs: a GUID as one 128-bit number.
pub mod Packing
use wintun_bindings.Base.{ℕ, List, ◌∷◌, [], ◌*◌, ◌+◌, ◌^◌}
use Prim.Native.Nat.{bit_or}

-- `data4` is eight bytes.
pub record Guid : Type 0 where
  pub data1 : ℕ
  pub data2 : ℕ
  pub data3 : ℕ
  pub data4 : List ℕ

-- `u64::from_be_bytes`, with the number that the bytes so far make.
unfoldable pub from_be_bytes : ℕ → List ℕ → ℕ
from_be_bytes n [] = n
from_be_bytes n (b ∷ bs) = from_be_bytes (n * 256 + b) bs

unfoldable pub win_guid_to_u128 : Guid → ℕ
unfolding from_be_bytes
win_guid_to_u128 guid =
    bit_or (bit_or (bit_or (guid.data1 * 2 ^ 96) (guid.data2 * 2 ^ 80)) (guid.data3 * 2 ^ 64))
      (from_be_bytes 0 guid.data4)
