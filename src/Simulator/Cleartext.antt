-- ===== src/Simulator/Cleartext.antt =====
-- v2/simulator/cleartext-protocol.go. What the network gives is a parameter.
pub mod Closes
use flightsim.Prelude.{ℕ, Bool, true, false, List, [], ◌∷◌, Option, none, some, ◌⊎◌, inl, inr, map}
use flightsim.Prelude.Bytes.{Bytes, codes}
use flightsim.Net.{join_host_port}
use flightsim.Simulator.Connect.{BindAddr, GoError, Action, dialled, wrote, closed, read}

pub record CleartextSimulator : Type 0 where
  pub bind : BindAddr
  pub data_to_send : Bytes

-- `generateRandomData`, where `rand_read` is the reading from a new generator.
abbrev pub generate_random_data : (ℕ → Bytes) → ℕ → Bytes
generate_random_data rand_read n = rand_read n

-- `Init`
unfoldable pub cleartext_init : (ℕ → Bytes) → BindAddr → CleartextSimulator
cleartext_init rand_read bind = record {
  bind = bind;
  data_to_send = generate_random_data rand_read 1000;
}

pub record Peer : Type 0 where
  pub dial_err : Option GoError
  pub write_err : Option GoError
  pub read_err : Option GoError

-- `if err != nil { return err }` behind the read and the write, with `conn.Close()` deferred.
abbrev pub after_cleartext_write : Peer → Option GoError → Option GoError × List Action
after_cleartext_write peer (some e) = (some e, closed ∷ [])
after_cleartext_write peer none = (peer.read_err, read ∷ closed ∷ [])

abbrev pub after_cleartext_dial : Peer → Bytes → Option GoError → Option GoError × List Action
after_cleartext_dial peer sent (some e) = (some e, [])
after_cleartext_dial peer sent none =
    let (err, actions) = after_cleartext_write peer peer.write_err in (err, wrote sent ∷ actions)

-- `(*CleartextProtocolSimulator).Simulate`
unfoldable pub cleartext_simulate : CleartextSimulator → Peer → Bytes → Option GoError × List Action
cleartext_simulate cps peer dst =
    let (err, actions) = after_cleartext_dial peer cps.data_to_send peer.dial_err in
    (err, dialled dst ∷ actions)

abbrev pub cleartext_ports : List Bytes
cleartext_ports = codes "21" ∷ codes "23" ∷ codes "110" ∷ codes "143" ∷ codes "873" ∷ []

-- How a call of `Hosts` ends; `ips[0]` panics if there is no address.
pub data CleartextHosts (E : Type 0) : Type 0 where
  hosts_listed : List Bytes → CleartextHosts E
  lookup_error : E → CleartextHosts E
  index_panic : CleartextHosts E

-- `(*CleartextProtocolSimulator).Hosts`, by the texts of the addresses that the lookup gives.
unfoldable pub cleartext_hosts : {E : Type 0} → E ⊎ List Bytes → CleartextHosts E
cleartext_hosts (inl e) = lookup_error e
cleartext_hosts (inr []) = index_panic
cleartext_hosts (inr (target_ip ∷ ips)) =
    hosts_listed (map (λ port. join_host_port target_ip port) cleartext_ports)
