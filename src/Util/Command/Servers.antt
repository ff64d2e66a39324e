-- ===== src/Util/Command/Servers.antt =====
-- Which commands `set_interface_dns_servers_via_cmd` of src/util.rs runs.
use wintun_bindings.Base.{◌≡◌, true, ◌++◌, Outcome, ok, [], ◌+◌, ◌⊎◌, err, Text, text, List, ℕ, ◌∷◌}
use wintun_bindings.Failure.{Error}
use wintun_bindings.System.{World, command}
use wintun_bindings.Util.Command.{finished, Console, Finished, display_ip, decimal}
use wintun_bindings.Util.SockAddr.{IpAddr, v4, v6}

abbrev pub netsh : Text
netsh = text "netsh"

abbrev pub family_word : IpAddr → Text
family_word (v4 octets) = text "ipv4"
family_word (v6 octets) = text "ipv6"

module _ (c : Console) (adapter : Text) where
  -- A command that has ended, with exit status 0.
  abbrev pub Succeeds : Finished → Type 0
  Succeeds done = (out : List ℕ) × (err_out : List ℕ) × (done ≡ finished true out err_out)

  -- The arguments that add the servers, numbered from `index` on, for a family.
  abbrev pub adding : Text → ℕ → List IpAddr → List (List Text)
  adding family index [] = []
  adding family index (a ∷ as') =
      (text "interface"
        ∷ family
        ∷ text "add"
        ∷ text "dns"
        ∷ (text "name=\"" ++ adapter ++ text "\"")
        ∷ (text "index=" ++ decimal index)
        ∷ (text "address=\"" ++ display_ip c a ++ text "\"")
        ∷ [])
      ∷ adding family (index + 1) as'

  -- The first server is set, the others are added from index 2 on, all for the family of the first.
  abbrev pub setting : List IpAddr → List (List Text)
  setting [] = []
  setting (a ∷ as') =
      (text "interface"
        ∷ family_word a
        ∷ text "set"
        ∷ text "dns"
        ∷ (text "name=\"" ++ adapter ++ text "\"")
        ∷ text "source=\"static\""
        ∷ (text "address=\"" ++ display_ip c a ++ text "\"")
        ∷ [])
      ∷ adding (family_word a) 2 as'

  -- `netsh` is run with each of these arguments, in order, up to the first that does not succeed.
  abbrev pub Runs : List (List Text) → World → Outcome Error (Unit {0}) × World → Type 0
  Runs [] w r = r ≡ (ok tt, w)
  Runs (args ∷ rest) w r =
      let w₁ = record w { trace = command netsh args ∷ w.trace } in
      (Succeeds (c.output w.trace netsh args) × Runs rest w₁ r)
      ⊎ ((¬ Succeeds (c.output w.trace netsh args)) × (e : Error) × (r ≡ (err e, w₁)))
