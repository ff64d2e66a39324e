-- ===== src/Util/Guid/Packing.antt =====
-- The fields of a GUID in its 128-bit number: src/util.rs.
use wintun_bindings.Base.{bit_or_disjoint, ◌<◌, ◌≡◌, ◌*◌, ◌^◌, ◌+◌, arith, ◌/◌, ◌%◌}
use wintun_bindings.Util.Guid.{Guid, win_guid_to_u128, from_be_bytes}

-- The fields have the sizes that their types give them.
pub record IsGuid (g : Guid) : Type 0 where
  pub data1_lt : g.data1 < 2 ^ 32
  pub data2_lt : g.data2 < 2 ^ 16
  pub data3_lt : g.data3 < 2 ^ 16
  pub data4_lt : from_be_bytes 0 g.data4 < 2 ^ 64

win_guid_to_u128-eq-sum :
    (g : Guid)
    → IsGuid g
    → win_guid_to_u128 g
      ≡ g.data1 * 2 ^ 96 + g.data2 * 2 ^ 80 + g.data3 * 2 ^ 64 + from_be_bytes 0 g.data4
unfolding win_guid_to_u128
win_guid_to_u128-eq-sum g v =
    let high = bit_or_disjoint 96 g.data1 (g.data2 * 2 ^ 80) (omega (arith, v.data2_lt)) in
    let e : g.data1 * 2 ^ 96 + g.data2 * 2 ^ 80 ≡ (g.data1 * 2 ^ 16 + g.data2) * 2 ^ 80 =
      omega arith in
    let middle =
      bit_or_disjoint 80 (g.data1 * 2 ^ 16 + g.data2) (g.data3 * 2 ^ 64)
        (omega (arith, v.data3_lt)) in
    let f : g.data1 * 2 ^ 96 + g.data2 * 2 ^ 80 + g.data3 * 2 ^ 64
        ≡ (g.data1 * 2 ^ 32 + g.data2 * 2 ^ 16 + g.data3) * 2 ^ 64 =
      omega arith in
    let low =
      bit_or_disjoint 64 (g.data1 * 2 ^ 32 + g.data2 * 2 ^ 16 + g.data3) (from_be_bytes 0 g.data4)
        v.data4_lt in
    rw (high, e, middle, ← e, f, low) (omega arith)

-- Each field of a GUID, if the fields have the sizes of their types, is read back at its place in the
-- 128-bit number.
pub win_guid_to_u128_fields :
    (g : Guid)
    → IsGuid g
    → (win_guid_to_u128 g / 2 ^ 96 ≡ g.data1)
      × (win_guid_to_u128 g / 2 ^ 80 % 2 ^ 16 ≡ g.data2)
      × (win_guid_to_u128 g / 2 ^ 64 % 2 ^ 16 ≡ g.data3)
      × (win_guid_to_u128 g % 2 ^ 64 ≡ from_be_bytes 0 g.data4)
win_guid_to_u128_fields g v =
    rw (win_guid_to_u128-eq-sum g v) (omega (arith, v.data1_lt, v.data2_lt, v.data3_lt, v.data4_lt))
