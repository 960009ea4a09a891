-- ===== src/Simulator/Lookups.antt =====
-- The simulators that resolve random names until their context expires: v2/simulator/oast.go and
-- v2/simulator/tunnel-dns.go; and v2/simulator/hijack.go. `answers` holds the error of each lookup
-- that is made before the context expires, one for each round.
pub mod Names
use flightsim.Prelude.{ℕ, List, [], ◌∷◌, ◌++◌, Option, none, some, map}
use flightsim.Prelude.Bytes.{Bytes, codes}
use flightsim.Prelude.Text.{to_lower}
use flightsim.Utils.Net.{fqdn}
use flightsim.Utils.Rand.{rand_string}
use flightsim.Simulator.Connect.{
  BindAddr, BoundSimulator, init_bound, GoError, unless_soft, Action, looked_up, waited,
}

abbrev pub soft_texts : List Bytes
soft_texts = codes "no such host" ∷ []

-- The other rounds, unless the lookup gave an error that is reported.
abbrev pub next_lookup :
    Option GoError → List Action × Option GoError → List Action × Option GoError
next_lookup (some e) rest = ([], some e)
next_lookup none rest = rest

-- `(OAST).Hosts`
abbrev pub oast_hosts : List Bytes
oast_hosts =
    codes "oast.fun"
    ∷ codes "oast.live"
    ∷ codes "oast.me"
    ∷ codes "oast.online"
    ∷ codes "oast.pro"
    ∷ codes "oast.site"
    ∷ codes "oastify.com"
    ∷ []

-- `(*Tunnel).Hosts`
abbrev pub tunnel_hosts : List Bytes
tunnel_hosts = codes "sandbox.alphasoc.xyz" ∷ []

module _ {G : Type 0} (intn : G → ℕ → ℕ × G) where
  -- `strings.ToLower(utils.RandString(n))`, a dot and the domain
  unfoldable pub random_name : ℕ → Bytes → G → Bytes × G
  random_name n domain g =
      let (label, g') = rand_string intn n g in (map to_lower label ++ (b'.' ∷ domain), g')

  -- The loop of `(*OAST).Simulate`: a random wait, which draws a number, and then a lookup.
  unfoldable pub oast_loop : Bytes → List (Option GoError) → G → List Action × Option GoError
  oast_loop host [] g = ([], none)
  oast_loop host (answer ∷ answers) g =
      let (wait, g1) = intn g 400 in
      let (name, g2) = random_name 33 host g1 in
      let (actions, err) =
        next_lookup (unless_soft answer soft_texts) (oast_loop host answers g2) in
      (waited ∷ looked_up name ∷ actions, err)

  -- The loop of `(*Tunnel).Simulate`: a lookup, and a wait unless its error is reported.
  unfoldable pub tunnel_loop : Bytes → List (Option GoError) → G → List Action × Option GoError
  tunnel_loop host [] g = ([], none)
  tunnel_loop host (answer ∷ answers) g =
      let (name, g') = random_name 30 host g in
      let (rest, rest_err) = tunnel_loop host answers g' in
      let (actions, err) = next_lookup (unless_soft answer soft_texts) (waited ∷ rest, rest_err) in
      (looked_up name ∷ actions, err)

  unfoldable pub tunnel_simulate : Bytes → List (Option GoError) → G → List Action × Option GoError
  tunnel_simulate host answers g = tunnel_loop (fqdn host) answers g

-- `(*Hijack).Simulate`, with the addresses and the error of the lookup
pub data HijackError (E : Type 0) : Type 0 where
  lookup_failed : E → HijackError E
  no_dns_response : HijackError E

unfoldable pub hijack_simulate : {E : Type 0} → List Bytes → Option E → Option (HijackError E)
hijack_simulate addrs (some e) = some (lookup_failed e)
hijack_simulate [] none = some no_dns_response
hijack_simulate (a ∷ addrs) none = none

abbrev pub hijack_hosts : List Bytes
hijack_hosts = codes "alphasoc.com" ∷ []

-- `(*OAST).Init` and `(*Tunnel).Init`
abbrev pub oast_init : BindAddr → BoundSimulator → BoundSimulator
oast_init bind s = init_bound bind s

abbrev pub tunnel_init : BindAddr → BoundSimulator → BoundSimulator
tunnel_init bind s = init_bound bind s
