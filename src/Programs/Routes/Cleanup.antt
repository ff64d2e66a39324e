-- ===== src/Programs/Routes/Cleanup.antt =====
-- Which routes examples/wireshark.rs adds and deletes.
use wintun_bindings.Base.{
  true, false, List, Text, ◌≡◌, text, Bool, inl, panic, refl, inr, ◌∷◌, [], Outcome, arith, ok, ◌⊎◌,
  Sum-cases, err, if◌then◌else◌, Bool-cases, text_eq, text_eq→eq,
}
use wintun_bindings.Failure.{Error, string}
use wintun_bindings.Programs.Routes.{
  add, set, RouteCmdKind, Shell, went_well, trim, run_netsh, verb, set_up, RouteCmd, clean_up,
  is_nil,
}
use wintun_bindings.System.{World, ◌>>=◌, map_err, ◌>>◌, M, command, pure, fail}
use wintun_bindings.Util.InterfaceInfo.{split}

abbrev pub netsh_args : Text → Text → List Text
netsh_args word cmd = text "interface" ∷ text "ip" ∷ word ∷ split 32 cmd

abbrev pub setting_word : RouteCmdKind → Text
setting_word add = text "add"
setting_word set = text "set"

-- The output of a command that went well, but for white space at its ends.
abbrev pub IsQuiet : Text → Type 0
IsQuiet output = (trim output ≡ []) ⊎ (trim output ≡ text "Ok.")

abbrev pub ran : List Text → World → World
ran args w = record w { trace = command (text "netsh") args ∷ w.trace }

went_well-IsQuiet :
    (success : Bool) (output : Text)
    → went_well success output ≡ true
    → (success ≡ true) × IsQuiet output
unfolding went_well
went_well-IsQuiet false output h = absurd (ground (arith, h))
went_well-IsQuiet true output h = (
  refl,
  (elim (Bool-cases (text_eq (trim output) (text "Ok."))) [
    | inl same ↦ inr (text_eq→eq (trim output) (text "Ok.") same)
    | inr other ↦ inl (nil_of (trim output) (ground (arith, h, other)))
  ]),
)
  where
    nil_of : (s : Text) → is_nil s ≡ true → s ≡ []
    nil_of [] e = refl
    nil_of (c ∷ s) e = absurd (ground (arith, e))

IsQuiet-went_well : (output : Text) → IsQuiet output → went_well true output ≡ true
unfolding went_well
IsQuiet-went_well output (inl z) = rw z refl
IsQuiet-went_well output (inr z) = rw z refl

module _ (shell : Shell) where
  abbrev pub answer : List Text → World → Text ⊎ (Bool × Text)
  answer args w = shell.run w.trace (text "netsh") args

  -- A command that was run to its end with success and no complaint.
  abbrev pub WentWell : List Text → World → Type 0
  WentWell args w = (output : Text) × (answer args w ≡ inr (true, output)) × IsQuiet output

  -- The commands of the routes are run in order, up to the first that does not go well, which is an
  -- error. `After` is what is to hold once all went well.
  abbrev pub SetsUp :
      {A : Type 0}
      → (World → Outcome Error A × World → Type 0)
      → List RouteCmd
      → World
      → Outcome Error A × World
      → Type 0
  SetsUp After [] w r = After w r
  SetsUp After (route ∷ rest) w r =
      let args = netsh_args (setting_word route.kind) route.cmd in
      (WentWell args w × SetsUp After rest (ran args w) r)
      ⊎ ((¬ WentWell args w) × (e : Error) × (r ≡ (err e, ran args w)))

  verb-same : (kind : RouteCmdKind) → verb kind ≡ setting_word kind
  verb-same add = refl
  verb-same set = refl

  -- A command of a route, with the test of its output.
  abbrev run_route : Text → Text → M Text (Unit {0})
  run_route word cmd = do
    done ← run_netsh shell word cmd
    if went_well done.0 done.1 then pure tt else fail (text "Running process")

  run_route-cases :
      (word cmd : Text) (w : World)
      → let args = netsh_args word cmd in
        (WentWell args w × (run_route word cmd w ≡ (ok tt, ran args w)))
        ⊎ ((¬ WentWell args w) × (e : Text) × (run_route word cmd w ≡ (err e, ran args w)))
  unfolding run_netsh
  run_route-cases word cmd w =
      let args = netsh_args word cmd in
      elim (Sum-cases (answer args w)) [
        | inl (e, z) ↦
            inr (λ (output, r, quiet). absurd (ground (arith, r, z)), e, ground (arith, z))
        | inr ((success, output), z) ↦ elim (Bool-cases (went_well success output)) [
          | inl well ↦
              let (good, quiet) = went_well-IsQuiet success output well in
              inl ((output, ground (arith, z, good), quiet), ground (arith, z, well))
          | inr bad ↦ inr (
            λ (output', r, quiet).
                absurd (ground (arith, bad, r, z, IsQuiet-went_well output' quiet)),
            text "Running process",
            ground (arith, z, bad),
          )
        ]
      ]

  set_up-nil : (w : World) → set_up shell [] w ≡ (ok tt, w)
  unfolding set_up
  set_up-nil w = refl

  set_up-goes_on :
      (route : RouteCmd) (rest : List RouteCmd) (w w₁ : World)
      → run_route (verb route.kind) route.cmd w ≡ (ok tt, w₁)
      → set_up shell (route ∷ rest) w ≡ set_up shell rest w₁
  unfolding set_up run_netsh
  set_up-goes_on route rest w w₁ r =
      elim (Sum-cases (answer (netsh_args (verb route.kind) route.cmd) w)) [
        | inl (e, z) ↦ absurd (ground (arith, r, z))
        | inr (done, z) ↦ elim (Bool-cases (went_well done.0 done.1)) [
          | inl well ↦ ground (arith, r, z, well)
          | inr bad ↦ absurd (ground (arith, r, z, bad))
        ]
      ]

  set_up-stops :
      (route : RouteCmd) (rest : List RouteCmd) (w w₁ : World) (e : Text)
      → run_route (verb route.kind) route.cmd w ≡ (err e, w₁)
      → set_up shell (route ∷ rest) w ≡ (err e, w₁)
  unfolding set_up run_netsh
  set_up-stops route rest w w₁ e r =
      elim (Sum-cases (answer (netsh_args (verb route.kind) route.cmd) w)) [
        | inl (e', z) ↦ ground (arith, r, z)
        | inr (done, z) ↦ elim (Bool-cases (went_well done.0 done.1)) [
          | inl well ↦ absurd (ground (arith, r, z, well))
          | inr bad ↦ ground (arith, r, z, bad)
        ]
      ]

  pub set_up-SetsUp :
      {A : Type 0} (After : World → Outcome Error A × World → Type 0) (rest : M Error A)
      → ((w : World) → After w (rest w))
      → (rs : List RouteCmd) (w : World)
      → SetsUp After rs w ((map_err string (set_up shell rs) >> rest) w)
  set_up-SetsUp After rest after [] w = rw (set_up-nil w) (after w)
  set_up-SetsUp After rest after (route ∷ routes') w =
      rw (← verb-same route.kind) (elim (run_route-cases (verb route.kind) route.cmd w) [
        | inl (well, r) ↦ inl (
          well,
          rw (set_up-goes_on route routes' w _ r) (
              set_up-SetsUp After rest after routes'
                (ran (netsh_args (verb route.kind) route.cmd) w)),
        )
        | inr (bad, e, r) ↦ inr (bad, string e, rw (set_up-stops route routes' w _ e r) refl)
      ])

  -- Each route that was added is deleted, in order, whether the deletion succeeds or not, up to the first
  -- command that cannot be run at all, whose error is the result.
  abbrev pub Deletes : List RouteCmd → World → Outcome Text (Unit {0}) × World → Type 0
  Deletes [] w r = r ≡ (ok tt, w)
  Deletes (route ∷ rest) w r =
      let args = netsh_args (text "delete") route.cmd in
      ((route.kind ≡ set) × Deletes rest w r)
      ⊎ ((route.kind ≡ add)
          × (done : Bool × Text) × (answer args w ≡ inr done)
          × Deletes rest (ran args w) r)
      ⊎ ((route.kind ≡ add) × (e : Text) × (answer args w ≡ inl e) × (r ≡ (err e, ran args w)))

  kind_cases : (k : RouteCmdKind) → (k ≡ add) ⊎ (k ≡ set)
  kind_cases add = inl refl
  kind_cases set = inr refl

  pub clean_up-Deletes : (rs : List RouteCmd) (w : World) → Deletes rs w (clean_up shell rs w)
  unfolding clean_up run_netsh
  clean_up-Deletes [] w = refl
  clean_up-Deletes (route ∷ rest) w =
      let args = netsh_args (text "delete") route.cmd in
      elim (kind_cases route.kind) [
        | inr is_set ↦ rw is_set (inl (refl, clean_up-Deletes rest w))
        | inl is_add ↦ elim (Sum-cases (answer args w)) [
          | inl (e, z) ↦ rw (is_add, z) (inr (inr (refl, e, refl, refl)))
          | inr (done, z) ↦
              rw (is_add, z) (inr (inl (refl, done, refl, clean_up-Deletes rest (ran args w))))
        ]
      ]

  pub Deletes-calm : (rs : List RouteCmd) (w w' : World) → ¬ Deletes rs w (panic, w')
  Deletes-calm [] w w' h = absurd (ground (arith, h))
  Deletes-calm (route ∷ rest) w w' (inl (k, h)) = Deletes-calm rest w w' h
  Deletes-calm (route ∷ rest) w w' (inr (inl (k, done, z, h))) = Deletes-calm rest _ w' h
  Deletes-calm (route ∷ rest) w w' (inr (inr (k, e, z, h))) = absurd (ground (arith, h))
