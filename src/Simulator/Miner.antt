-- ===== src/Simulator/Miner.antt =====
-- v2/simulator/miner.go. What the network gives is a parameter.
pub mod Closes
use flightsim.Prelude.{Bool, true, false, List, [], ◌∷◌, ◌++◌, Option, none, some, if◌then◌else◌}
use flightsim.Prelude.Bytes.{Bytes, codes}
use flightsim.Simulator.Connect.{
  BindAddr, BoundSimulator, init_bound, GoError, is_soft_error, Action, dialled, wrote, closed,
  set_deadline, read,
}

abbrev pub mining_subscribe_body : Bytes
mining_subscribe_body =
    codes "{\"jsonrpc\": \"2.0\", \"id\": 1, \"method\": \"mining.subscribe\", \"params\": []}"
    ++ (10 ∷ [])

-- The answers of the network: of the dial, and on the connection.
pub record Stratum : Type 0 where
  pub connected : Bool
  pub dial_err : Option GoError
  pub deadline_err : Option GoError
  pub write_err : Option GoError
  pub read_err : Option GoError

-- The end of `Simulate`: `if isSoftError(err, ...) { return nil }; return err`.
abbrev pub report : Option GoError → Option GoError
report err = if is_soft_error err (codes "connect: connection refused" ∷ []) then none else err

abbrev pub after_stratum_write : Option GoError → Option GoError → Option GoError × List Action
after_stratum_write (some e) read_err = (some e, [])
after_stratum_write none read_err = (report read_err, read ∷ closed ∷ [])

abbrev pub after_deadline : Stratum → Option GoError → Option GoError × List Action
after_deadline net (some e) = (some e, [])
after_deadline net none =
    let (err, actions) = after_stratum_write net.write_err net.read_err in
    (err, wrote mining_subscribe_body ∷ actions)

abbrev pub after_stratum_dial : Stratum → Bool → Option GoError × List Action
after_stratum_dial net false = (report net.dial_err, [])
after_stratum_dial net true =
    let (err, actions) = after_deadline net net.deadline_err in (err, set_deadline ∷ actions)

-- `(*StratumMiner).Simulate`
unfoldable pub miner_simulate : Stratum → Bytes → Option GoError × List Action
miner_simulate net dst =
    let (err, actions) = after_stratum_dial net net.connected in (err, dialled dst ∷ actions)

-- `(*StratumMiner).Init`
abbrev pub miner_init : BindAddr → BoundSimulator → BoundSimulator
miner_init bind s = init_bound bind s
