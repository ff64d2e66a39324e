-- ===== src/Util/Mtu/Lookup.antt =====
-- Which row of the table of interfaces `get_mtu_by_index` of src/util.rs reads.
use wintun_bindings.Base.{
  ℕ, ◌==◌, ◌≡◌, ◌≢◌, ◌⊎◌, Bool, Option, none, some, List, [], ◌∷◌, ◌++◌, ok, err, inl, inr, arith,
  refl, Bool-cases,
}
use wintun_bindings.Failure.{from_kind, not_found}
use wintun_bindings.System.{Platform, World}
use wintun_bindings.Util.Interfaces.{walk}
use wintun_bindings.Util.Mtu.{Row, InterfaceTable, remember, get_mtu_by_index}

-- No row has the index.
abbrev pub LacksIndex : ℕ → List Row → Type 0
LacksIndex index [] = Unit
LacksIndex index (row ∷ rows) = (row.interface_index ≢ index) × LacksIndex index rows

-- The last row with the index has the MTU `n`.
pub record IsLastMtu (index : ℕ) (rows : List Row) (n : ℕ) : Type 0 where
  pub before : List Row
  pub row : Row
  pub after : List Row
  pub splits : rows ≡ before ++ row ∷ after
  pub matches : row.interface_index ≡ index
  pub mtu_eq : row.nl_mtu ≡ n
  pub rest : LacksIndex index after

IsLastMtu-cons :
    {index n : ℕ} {row : Row} {rows : List Row}
    → IsLastMtu index rows n
    → IsLastMtu index (row ∷ rows) n
IsLastMtu-cons {row = row} l = record {
  before = row ∷ l.before;
  row = l.row;
  after = l.after;
  splits = rw l.splits;
  matches = l.matches;
  mtu_eq = l.mtu_eq;
  rest = l.rest;
}

walk-remember :
    (p : Platform) (table : InterfaceTable) (index : ℕ) (rows : List Row) (start : Option ℕ)
    → ((walk (remember p table index) rows start ≡ start) × LacksIndex index rows)
      ⊎ ((n : ℕ) × (walk (remember p table index) rows start ≡ some n) × IsLastMtu index rows n)
unfolding walk
walk-remember p table index [] start = inl (refl, tt)
walk-remember p table index (row ∷ rows) start = elim (Bool-cases (row.interface_index == index)) [
  | inl same ↦ elim (walk-remember p table index rows (some row.nl_mtu)) [
    | inl (e, lacks) ↦ inr (
      row.nl_mtu,
      rw same e,
      record {
        before = [];
        row = row;
        after = rows;
        splits = refl;
        matches = ground arith;
        mtu_eq = refl;
        rest = lacks;
      },
    )
    | inr (n, e, l) ↦ inr (n, rw same e, IsLastMtu-cons l)
  ]
  | inr other ↦ elim (walk-remember p table index rows start) [
    | inl (e, lacks) ↦ inl (rw other e, (ground arith, lacks))
    | inr (n, e, l) ↦ inr (n, rw other e, IsLastMtu-cons l)
  ]
]

-- Where Windows gives the table, `get_mtu_by_index` answers the MTU of the last row with the index,
-- fails as not found exactly if no row has it, and changes nothing.
pub get_mtu_by_index-last :
    (p : Platform) (table : InterfaceTable) (index : ℕ) (is_ipv6 : Bool) (rows : List Row)
    (w : World)
    → table.table_code w.trace is_ipv6 ≡ 0
    → table.table_rows w.trace is_ipv6 ≡ some rows
    → ((n : ℕ) × (get_mtu_by_index p table index is_ipv6 w ≡ (ok n, w)) × IsLastMtu index rows n)
      ⊎ ((get_mtu_by_index p table index is_ipv6 w ≡ (err (from_kind not_found), w))
          × LacksIndex index rows)
unfolding get_mtu_by_index
get_mtu_by_index-last p table index is_ipv6 rows w c r =
    elim (walk-remember p table index rows none) [
      | inl (e, lacks) ↦ inr (ground (arith, e), lacks)
      | inr (n, e, l) ↦ inl (n, ground (arith, e), l)
    ]
