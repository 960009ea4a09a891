-- ===== src/Cmd/Output.antt =====
-- What package run prints for the run command (v2/cmd/run/print.go and the messages in v2/cmd/run/run.go). The clock and
-- the texts of errors and panics are parameters.
use flightsim.Prelude.{ℕ, suc, List, [], ◌∷◌, ◌++◌, Option, none, some, if◌then◌else◌}
use flightsim.Prelude.Bytes.{Bytes, bytes_eq, codes, itoa}
use flightsim.Prelude.Text.{join}
use flightsim.Cmd.Select.{Simulation, simulation_name}
use flightsim.Cmd.Run.{
  Message, text, fatal_init, fatal_terminated, host_error, finished, Event, printed, initialised,
  asked_hosts, simulated, waited, cleaned_up,
}
use flightsim.Cmd.Command.{Ran}

-- The text of an error and of a panic, the version, the times of the lines, and that of the welcome.
pub record Printing (E : Type 0) : Type 0 where
  pub error_text : E → Bytes
  pub panic_text : Bytes
  pub version : Bytes
  pub clock : ℕ → Bytes
  pub date : Bytes

module _ {E : Type 0} (out : Printing E) where
  -- `printWelcome`; the bytes 226, 132 and 162 are the trade mark sign.
  unfoldable pub welcome : Bytes → Bytes → Bytes
  welcome ip dns_intf_ip = join [] (
      (10 ∷ codes "AlphaSOC Network Flight Simulator")
      ∷ (226 ∷ 132 ∷ 162 ∷ codes " ")
      ∷ out.version
      ∷ codes " (https://github.com/alphasoc/flightsim)"
      ∷ (10 ∷ codes "The address of the network interface for IP traffic is ")
      ∷ ip
      ∷ (10 ∷ codes "The address of the network interface for DNS queries is ")
      ∷ (if bytes_eq dns_intf_ip []
          then codes "UNKNOWN, system defaults will be used"
          else dns_intf_ip)
      ∷ (10 ∷ codes "The current time is ")
      ∷ out.date
      ∷ (10 ∷ [])
      ∷ [])

  -- `printGoodbye`
  abbrev pub goodbye : Bytes
  goodbye =
      10
      ∷ (codes "All done! Check your SIEM for alerts using the timestamps and details above."
          ++ (10 ∷ []))

  abbrev pub success_text : Option Bytes → Bytes
  success_text none = []
  success_text (some msg) = codes ": " ++ msg

  unfoldable pub message_text : Message E → Bytes
  message_text (text m) = m
  message_text (fatal_init e) = codes "FATAL: Couldn't start the module: " ++ out.error_text e
  message_text fatal_terminated = codes "FATAL: Module terminated: " ++ out.panic_text
  message_text (host_error host e) = codes "ERROR: " ++ (host ++ (codes ": " ++ out.error_text e))
  message_text (finished ok_hosts hosts msg) =
      join [] (
        codes "Done (" ∷ itoa ok_hosts ∷ codes "/" ∷ itoa hosts ∷ codes ")" ∷ success_text msg ∷ [])

  -- The line of `printMsg`, at its time.
  unfoldable pub line : Bytes → Simulation → Bytes → Bytes
  line time sim msg =
      join [] (time ∷ codes " [" ∷ simulation_name sim ∷ codes "] " ∷ msg ∷ (10 ∷ []) ∷ [])

  -- What an event prints at its time: a line, or the empty line in front of a simulation.
  abbrev pub event_text : Bytes → Event E → Bytes
  event_text time (printed sim m) = line time sim (message_text m)
  event_text time (initialised sim) = 10 ∷ []
  event_text time (asked_hosts sim n) = []
  event_text time (simulated sim host) = []
  event_text time (waited sim) = []
  event_text time (cleaned_up sim) = []

  -- The events from number `n` on.
  unfoldable pub events_text : ℕ → List (Event E) → Bytes
  events_text n [] = []
  events_text n (e ∷ es) = event_text (out.clock n) e ++ events_text (suc n) es

  -- What package run prints for the run command; lines that the modules print of themselves are not in it.
  unfoldable pub run_output : {W : Type 0} → Ran W E → Bytes
  run_output ran =
      welcome ran.ip_interface ran.dns_interface ++ (events_text 0 ran.events ++ goodbye)
