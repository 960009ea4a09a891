-- ===== src/Simulator/Connect.antt =====
-- v2/simulator/simulator.go: the errors that a simulation ignores, and the simulators that connect
-- to a TCP port or look a name up. The network is a parameter: what a dial or a lookup gives.
pub mod Laws
use flightsim.Prelude.{
  ℕ, Bool, true, false, not, ◌&&◌, ◌||◌, List, [], ◌∷◌, ◌++◌, Option, none, some, if◌then◌else◌,
}
use flightsim.Prelude.Bytes.{Bytes, codes, bytes_eq}
use flightsim.Prelude.Text.{contains_text}
use flightsim.Net.{split_host_port}
use flightsim.Utils.Net.{fqdn}

pub record BindAddr : Type 0 where
  pub addr : Bytes
  pub user_set : Bool

-- An error: whether it is `io.EOF`, what `Timeout` says if it is a `net.Error`, and its text.
pub record GoError : Type 0 where
  pub is_eof : Bool
  pub timeout : Option Bool
  pub text : Bytes

-- The loop over the texts
unfoldable pub contains_any : Bytes → List Bytes → Bool
contains_any s [] = false
contains_any s (t ∷ ts) = contains_text s t || contains_any s ts

abbrev pub soft_net_error : Option Bool → Bytes → List Bytes → Bool
soft_net_error none text ts = false
soft_net_error (some true) text ts = true
soft_net_error (some false) text ts = contains_any text ts

-- `isSoftError`, where `none` is the nil error
unfoldable pub is_soft_error : Option GoError → List Bytes → Bool
is_soft_error none ts = false
is_soft_error (some e) ts = e.is_eof || soft_net_error e.timeout e.text ts

-- `isTimeout`
abbrev pub is_timeout : Option Bool → Bool
is_timeout none = false
is_timeout (some t) = t

-- `if err != nil && !isSoftError(err, ...) { return err }; return nil`
unfoldable pub unless_soft : Option GoError → List Bytes → Option GoError
unless_soft none ts = none
unless_soft (some e) ts = if not (is_soft_error (some e) ts) then some e else none

-- What is done on the network.
pub data Action : Type 0 where
  dialled looked_up : Bytes → Action
  wrote : Bytes → Action
  closed set_deadline read waited : Action

-- The two results of `DialContext`: whether there is a connection, and the error.
pub record Dialled : Type 0 where
  pub connected : Bool
  pub err : Option GoError

abbrev pub close_if : Bool → List Action
close_if true = closed ∷ []
close_if false = []

-- `(*TCPConnectSimulator).Simulate`: its error and what it does.
unfoldable pub tcp_simulate : (Bytes → Dialled) → Bytes → Option GoError × List Action
tcp_simulate dial dst =
    let d = dial dst in
    (
      unless_soft d.err (codes "connect: connection refused" ∷ []),
      dialled dst ∷ close_if d.connected,
    )

-- A simulator whose state is the address to bind to.
pub record BoundSimulator : Type 0 where
  pub bind : BindAddr

-- `Init`
abbrev pub init_bound : BindAddr → BoundSimulator → BoundSimulator
init_bound bind s = record s { bind = bind }

-- The method of a simulator, with the dialer by its local address.
unfoldable pub tcp_simulate_from :
    (Bytes → Bytes → Dialled) → BoundSimulator → Bytes → Option GoError × List Action
tcp_simulate_from dial s dst = tcp_simulate (dial s.bind.addr) dst

-- `host, _, _ := net.SplitHostPort(dst)`
abbrev pub host_of : Option (Bytes × Bytes) → Bytes
host_of none = []
host_of (some (host, port)) = host

unfoldable pub name_to_resolve : Bytes → Bytes
name_to_resolve dst =
    let host = host_of (split_host_port dst) in fqdn (if bytes_eq host [] then dst else host)

-- `(*DNSResolveSimulator).Simulate`; `lookup` gives the error of `LookupHost`.
unfoldable pub dns_simulate : (Bytes → Option GoError) → Bytes → Option GoError × List Action
unfolding name_to_resolve
dns_simulate lookup dst =
    let host = name_to_resolve dst in
    (unless_soft (lookup host) (codes "no such host" ∷ []), looked_up host ∷ [])

-- The local address of a lookup: the one to bind to if the user has set it.
abbrev pub local_addr_of : BindAddr → Option Bytes
local_addr_of bind = if bind.user_set then some bind.addr else none

unfoldable pub dns_simulate_from :
    (Option Bytes → Bytes → Option GoError) → BoundSimulator → Bytes → Option GoError × List Action
dns_simulate_from lookup s dst = dns_simulate (lookup (local_addr_of s.bind)) dst
