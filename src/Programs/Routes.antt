-- ===== src/Programs/Routes.antt =====
-- examples/wireshark.rs: the routes that are set up so that the adapter gets all packets, and removed
-- when the program ends.
pub mod Cleanup
use wintun_bindings.Base.{
  ℕ, Bool, true, false, List, [], ◌∷◌, ◌++◌, ◌⊎◌, inl, inr, Text, text, text_eq, ◌==◌, ◌||◌, ◌&&◌,
  leb, if◌then◌else◌,
}
use wintun_bindings.System.{M, ◌>>=◌, ◌>>◌, pure, fail, invoke, command, Trace}
use wintun_bindings.Util.Command.{decimal}
use wintun_bindings.Util.InterfaceInfo.{split}

-- What the crate `subprocess` answers for a command, by its program and arguments: an error of its
-- start, its output or its end, or whether it succeeded, and its output.
pub record Shell : Type 0 where
  pub run : Trace → Text → List Text → Text ⊎ (Bool × Text)

pub data RouteCmdKind : Type 0 where
  add set : RouteCmdKind

pub record RouteCmd : Type 0 where
  pub kind : RouteCmdKind
  pub cmd : Text

-- `RouteCmd::add` and `RouteCmd::set`.
abbrev pub add_route : Text → RouteCmd
add_route cmd = record { kind = add; cmd = cmd }

abbrev pub set_route : Text → RouteCmd
set_route cmd = record { kind = set; cmd = cmd }

-- The vector `routes`, for an adapter with an index. The display of the addresses is their source.
unfoldable pub routes : ℕ → List RouteCmd
unfolding decimal
routes index =
    let i = decimal index in
    set_route (text "interface " ++ i ++ text " metric=1")
    ∷ set_route (text "address " ++ i ++ text " static 10.8.0.2/24 gateway=10.8.0.1 store=active")
    ∷ add_route (text "route 0.0.0.0/1 " ++ i ++ text " 10.8.0.1 store=active")
    ∷ add_route (text "route 128.0.0.0/1 " ++ i ++ text " 10.8.0.1 store=active")
    ∷ set_route (text "dnsservers " ++ i ++ text " static 1.1.1.1 register=primary validate=no")
    ∷ []

-- The white space of Unicode, which `str::trim` removes at both ends.
abbrev pub is_white_space : ℕ → Bool
is_white_space c =
    (leb 9 c && leb c 13)
    || (c == 32)
    || (c == 0x85)
    || (c == 0xa0)
    || (c == 0x1680)
    || (leb 0x2000 c && leb c 0x200a)
    || (c == 0x2028)
    || (c == 0x2029)
    || (c == 0x202f)
    || (c == 0x205f)
    || (c == 0x3000)

unfoldable pub trim_start : Text → Text
trim_start [] = []
trim_start (c ∷ s) = let rest = trim_start s in if is_white_space c then rest else c ∷ s

unfoldable pub trim_end : Text → Text
trim_end [] = []
trim_end (c ∷ s) = elim (trim_end s) [
  | [] ↦ if is_white_space c then [] else c ∷ []
  | d ∷ rest ↦ c ∷ d ∷ rest
]

unfoldable pub trim : Text → Text
unfolding trim_start trim_end
trim s = trim_end (trim_start s)

abbrev pub verb : RouteCmdKind → Text
verb add = text "add"
verb set = text "set"

-- The arguments of `netsh` with a verb.
unfoldable pub route_args : Text → Text → List Text
unfolding split
route_args word cmd = text "interface" ∷ text "ip" ∷ word ∷ split 32 cmd

abbrev pub is_nil : Text → Bool
is_nil [] = true
is_nil (c ∷ s) = false

-- `status.success()`, with no output but `Ok.`
unfoldable pub went_well : Bool → Text → Bool
unfolding trim
went_well success output =
    let out = trim output in success && (is_nil out || text_eq out (text "Ok."))

module _ (shell : Shell) where
  unfoldable pub run_netsh : Text → Text → M Text (Bool × Text)
  unfolding route_args
  run_netsh word cmd = do
    r ←
        invoke (command (text "netsh") (route_args word cmd))
          (λ t. shell.run t (text "netsh") (route_args word cmd))
    elim r [ inl e ↦ fail e | inr done ↦ pure done ]

  -- The loop that executes the routes, which ends the program at the first that fails.
  unfoldable pub set_up : List RouteCmd → M Text (Unit {0})
  unfolding run_netsh went_well
  set_up [] = pure tt
  set_up (route ∷ rest) = do
    done ← run_netsh (verb route.kind) route.cmd
    if went_well done.0 done.1 then pure tt else fail (text "Running process")
    set_up rest

  -- The loop at the end, which deletes what was added and goes on where that fails.
  unfoldable pub clean_up : List RouteCmd → M Text (Unit {0})
  unfolding run_netsh
  clean_up [] = pure tt
  clean_up (route ∷ rest) = elim route.kind [
    | add ↦ do _ ← run_netsh (text "delete") route.cmd; clean_up rest
    | set ↦ clean_up rest
  ]
