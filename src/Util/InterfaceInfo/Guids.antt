-- ===== src/Util/InterfaceInfo/Guids.antt =====
-- What `get_interface_info` of src/util.rs reads from the names of the interfaces.
use wintun_bindings.Base.{
  get_elem?, ℕ, true, List, [], ◌∷◌, ◌++◌, Option, none, some, inl, inr, Text, ◌≡◌, ◌≢◌, ok, arith,
  refl, ◌==◌, if◌then◌else◌, ◌||◌, ◌⊎◌, err, Sum-cases, Option-cases, Bool-cases,
}
use wintun_bindings.Failure.{Error}
use wintun_bindings.System.{Platform, World, run-cases}
use wintun_bindings.Util.FormatMessage.{Messages}
use wintun_bindings.Util.InterfaceInfo.{
  IndexMap, InfoApi, split, guid_of_name, get_interface_info, push_interface, buf_bytes,
}
use wintun_bindings.Util.Interfaces.{walk}
use wintun_bindings.Util.Utf16.{win_pwstr_to_string}
use mathlib.Core.Option
use mathlib.Core.List.{append_assoc, append-nil}

-- The characters before the first brace of either kind, or all if there is none.
abbrev pub until_brace : Text → Text
until_brace [] = []
until_brace (x ∷ xs) = if (x == 123) || (x == 125) then [] else x ∷ until_brace xs

-- What stands after the first opening brace, up to the next brace.
abbrev pub braced : Text → Option Text
braced [] = none
braced (x ∷ xs) = if x == 123 then some (until_brace xs) else braced xs

abbrev until : ℕ → Text → Text
until c [] = []
until c (x ∷ xs) = if x == c then [] else x ∷ until c xs

abbrev after : ℕ → Text → Option Text
after c [] = none
after c (x ∷ xs) = if x == c then some (until c xs) else after c xs

split-first : (c : ℕ) (s : Text) → get_elem? (split c s) 0 ≡ some (until c s)
unfolding split
split-first c [] = refl
split-first c (x ∷ xs) = ground (arith, split-first c xs)

split-second : (c : ℕ) (s : Text) → get_elem? (split c s) 1 ≡ after c s
unfolding split
split-second c [] = refl
split-second c (x ∷ xs) = ground (arith, split-first c xs, split-second c xs)

until-until : (s : Text) → until 125 (until 123 s) ≡ until_brace s
until-until [] = refl
until-until (x ∷ xs) = ground (arith, until-until xs)

after-braced : (s : Text) → Option.map (until 125) (after 123 s) ≡ braced s
after-braced [] = refl
after-braced (x ∷ xs) = ground (arith, after-braced xs, until-until xs)

pub guid_of_name-braced : (name : Text) → guid_of_name name ≡ braced name
unfolding guid_of_name
guid_of_name-braced name = elim (Option-cases (after 123 name)) [
  | inl z ↦ ground (arith, z, split-second 123 name, after-braced name)
  | inr (s, z) ↦ ground (arith, z, split-second 123 name, split-first 125 s, after-braced name)
]

-- The indices and the GUIDs of the interfaces up to the first whose name cannot be read or has none.
abbrev pub named_prefix : (List ℕ → Text) → List IndexMap → List (ℕ × Text)
named_prefix debug [] = []
named_prefix debug (i ∷ is) = elim (win_pwstr_to_string debug (some i.name)) [
  | inl e ↦ []
  | inr name ↦ elim (braced name) [
    | none ↦ []
    | some guid ↦ (i.index, guid) ∷ named_prefix debug is
  ]
]

module _ (p : Platform) (m : Messages) (debug : List ℕ → Text) (info : InfoApi) where
  walk-push_interface :
      (is : List IndexMap) (v : List (ℕ × Text))
      → walk (push_interface p m debug info) is v ≡ v ++ named_prefix debug is
  unfolding walk push_interface
  walk-push_interface [] v = rw append-nil
  walk-push_interface (i ∷ is) v = elim (Sum-cases (win_pwstr_to_string debug (some i.name))) [
    | inl (e, z) ↦ ground (arith, z, append-nil v)
    | inr (name, z) ↦ elim (Option-cases (braced name)) [
      | inl lacks ↦ ground (arith, z, guid_of_name-braced name, lacks, append-nil v)
      | inr (guid, has) ↦
          let pushed : push_interface p m debug info i v ≡ (true, v ++ (i.index, guid) ∷ []) =
            ground (arith, z, guid_of_name-braced name, has) in
          let rest = walk-push_interface is (v ++ (i.index, guid) ∷ []) in
          ground (
            arith,
            pushed,
            z,
            has,
            rest,
            append_assoc v ((i.index, guid) ∷ []) (named_prefix debug is),
          )
    ]
  ]

  -- The buffer is never too short for what Windows asks for, so that nothing panics. If both calls
  -- succeed, the result are the interfaces up to the first whose name cannot be read or has no brace,
  -- with the text between the first brace and the next one; if not, it is an error.
  pub get_interface_info-prefix :
      (w : World)
      → let first = info.first_result w.trace in
        let len = info.wanted_len w.trace in
        let second = info.second_result w.trace len in
        let r = (get_interface_info p m debug info w).0 in
        (((first ≡ 0) ⊎ (first ≡ 122))
          × (second ≡ 0)
          × (r ≡ ok (named_prefix debug (info.interfaces w.trace len))))
        ⊎ ((((first ≢ 0) × (first ≢ 122)) ⊎ (second ≢ 0)) × ((e : Error) × (r ≡ err e)))
  unfolding get_interface_info buf_bytes
  get_interface_info-prefix w =
      let first = info.first_result w.trace in
      let second = info.second_result w.trace (info.wanted_len w.trace) in
      elim (Bool-cases ((first == 0) || (first == 122))) [
        | inl fits ↦ elim (Bool-cases (second == 0)) [
          | inl done ↦ inl (
            elim (Bool-cases (first == 0)) [
              | inl zero_is ↦ inl (ground (arith, zero_is))
              | inr nz ↦ inr (ground (arith, nz, fits))
            ],
            ground (arith, done),
            ground (
              arith,
              fits,
              done,
              walk-push_interface (info.interfaces w.trace (info.wanted_len w.trace)) [],
            ),
          )
          | inr fails ↦ elim (run-cases (get_interface_info p m debug info w)) [
            | inl (v, w', z) ↦ absurd (ground (arith, fits, fails, z))
            | inr (inl (e, w', z)) ↦ inr (inr (ground (arith, fails)), (e, ground (arith, z)))
            | inr (inr (w', z)) ↦ absurd (ground (arith, z))
          ]
        ]
        | inr refused ↦ elim (run-cases (get_interface_info p m debug info w)) [
          | inl (v, w', z) ↦ absurd (ground (arith, refused, z))
          | inr (inl (e, w', z)) ↦ inr (inl (ground (arith, refused)), (e, ground (arith, z)))
          | inr (inr (w', z)) ↦ absurd (ground (arith, z))
        ]
      ]
