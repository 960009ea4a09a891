-- ===== src/Cmd/Run.antt =====
-- `run` of v2/cmd/run/run.go: the simulations one after the other, and within each its hosts. The
-- modules are a parameter: what their methods return, and how they change the world `W`, which holds
-- the state of all of them.
pub mod Trace
pub mod Bounds
pub mod Cleanups
pub mod Modes
pub mod Hosts
pub mod Protocol
pub mod Balance
pub mod Accounts
use flightsim.Prelude.{
  ℕ, ◌+◌, ◌<◌, Bool, true, false, not, ◌&&◌, ◌||◌, List, [], ◌∷◌, ◌++◌, Option, none, some, ltb,
  ◌==◌, if◌then◌else◌, length, take, get_or, map,
}
use flightsim.Prelude.Bytes.{Bytes, bytes_eq}
use flightsim.Cmd.Modules.{Module, format_host}
use flightsim.Cmd.Select.{Simulation}

-- How a call of `Simulate` ends.
pub data Ending (E : Type 0) : Type 0 where
  fine : Ending E
  failed : E → Ending E
  panicked : Ending E

-- The methods of the modules, and `rand.Perm`.
pub record Modules (W E : Type 0) : Type 0 where
  pub init : Simulation → W → Option E × W
  pub hosts : Simulation → Bytes → ℕ → W → List Bytes × Option E × W
  pub simulate : Simulation → Bytes → W → Ending E × W
  pub cleanup : Simulation → W → W
  pub host_msg : Simulation → W → Option (Bytes → Bytes)
  pub perm : ℕ → W → List ℕ × W

pub data Message (E : Type 0) : Type 0 where
  text : Bytes → Message E
  fatal_init : E → Message E
  fatal_terminated : Message E
  host_error : Bytes → E → Message E
  finished : ℕ → ℕ → Option Bytes → Message E

-- What the program does, in order: lines printed, calls of the modules, waits for a context's end.
pub data Event (E : Type 0) : Type 0 where
  printed : Simulation → Message E → Event E
  initialised : Simulation → Event E
  asked_hosts : Simulation → ℕ → Event E
  simulated : Simulation → Bytes → Event E
  waited : Simulation → Event E
  cleaned_up : Simulation → Event E

-- `printMsg` prints nothing for an empty text.
abbrev pub print_msg : {E : Type 0} → Simulation → Bytes → List (Event E)
print_msg sim msg = if bytes_eq msg [] then [] else printed sim (text msg) ∷ []

-- `some SuccessMsg` if a host went well and the module has such a message.
abbrev pub success_of : Module → ℕ → Option Bytes
success_of m ok_hosts =
    if ltb 0 ok_hosts && not (bytes_eq m.success_msg []) then some m.success_msg else none

abbrev pub is_empty {ℓ} : {A : Type ℓ} → List A → Bool
is_empty [] = true
is_empty (x ∷ xs) = false

module _ {W E : Type 0} (modules : Modules W E) (fast dry_run : Bool) where
  abbrev pub ended : Simulation → Bytes → Ending E → List (Event E)
  ended sim host fine = []
  ended sim host (failed e) = printed sim (host_error host e) ∷ []
  ended sim host panicked = printed sim fatal_terminated ∷ []

  -- The wait behind a host: not in fast mode, nor behind the last host of the last simulation.
  abbrev pub wait : Simulation → Bool → Bool → List (Event E)
  wait sim last_sim last_host =
      if not (fast || sim.module_of.fast) && (not last_sim || not last_host)
      then waited sim ∷ []
      else []

  -- What follows a call of `Simulate`; a panic leaves the loop over the hosts.
  abbrev pub after_simulate :
      Simulation
      → Bool
      → Bytes
      → Bool
      → ℕ
      → (ℕ → W → List (Event E) × ℕ × W)
      → Ending E × W
      → List (Event E) × ℕ × W
  after_simulate sim last_sim host last_host ok_hosts loop (fine, w) =
      let (events, n, w') = loop (ok_hosts + 1) w in (wait sim last_sim last_host ++ events, n, w')
  after_simulate sim last_sim host last_host ok_hosts loop (failed e, w) =
      let (events, n, w') = loop ok_hosts w in
      (ended sim host (failed e) ++ (wait sim last_sim last_host ++ events), n, w')
  after_simulate sim last_sim host last_host ok_hosts loop (panicked, w) =
      (ended sim host panicked, ok_hosts, w)

  -- The loop over the hosts: the events, `okHosts` and the world behind it.
  unfoldable pub run_hosts : Simulation → Bool → List Bytes → ℕ → W → List (Event E) × ℕ × W
  run_hosts sim last_sim [] ok_hosts w = ([], ok_hosts, w)
  run_hosts sim last_sim (host ∷ rest) ok_hosts w =
      let announced = print_msg sim (format_host (modules.host_msg sim w) sim.module_of host) in
      let skipped = run_hosts sim last_sim rest ok_hosts w in
      let called =
        after_simulate sim last_sim host (is_empty rest) ok_hosts (run_hosts sim last_sim rest)
          (modules.simulate sim host w) in
      if dry_run
      then (announced ++ skipped.0, skipped.1, skipped.2)
      else (announced ++ (simulated sim host ∷ called.0), called.1, called.2)

  -- A random choice of hosts, if there are more than wanted.
  unfoldable pub pick_hosts : ℕ → List Bytes → W → List Bytes × W
  pick_hosts num_of_hosts hosts w =
      let (order, w') = modules.perm (length hosts) w in
      if ltb 0 num_of_hosts && ltb num_of_hosts (length hosts)
      then (map (λ k. get_or hosts k []) (take num_of_hosts order), w')
      else (hosts, w)

  abbrev pub run_module : Simulation → Bool → List Bytes → W → List (Event E) × W
  run_module sim last_sim hosts w =
      let (events, ok_hosts, w') = run_hosts sim last_sim hosts 0 w in
      (
        events
            ++ (printed sim (finished ok_hosts (length hosts) (success_of sim.module_of ok_hosts))
                ∷ cleaned_up sim
                ∷ []),
        modules.cleanup sim w',
      )

  -- `Hosts` has answered. On its error the loop goes on with the next simulation at once.
  abbrev pub after_hosts : Simulation → Bool → ℕ → List Bytes × Option E × W → List (Event E) × W
  after_hosts sim last_sim num_of_hosts (hosts, some e, w) = (printed sim (fatal_init e) ∷ [], w)
  after_hosts sim last_sim num_of_hosts (hosts, none, w) =
      let (picked, w') = pick_hosts num_of_hosts hosts w in run_module sim last_sim picked w'

  abbrev pub after_init : Simulation → Bool → ℕ → Option E × W → List (Event E) × W
  after_init sim last_sim size (some e, w) =
      (printed sim (fatal_init e) ∷ cleaned_up sim ∷ [], modules.cleanup sim w)
  after_init sim last_sim size (none, w) =
      let num_of_hosts = if size == 0 then sim.module_of.num_of_hosts else size in
      let (events, w') =
        after_hosts sim last_sim num_of_hosts (modules.hosts sim sim.scope num_of_hosts w) in
      (print_msg sim sim.module_of.header_msg ++ (asked_hosts sim num_of_hosts ∷ events), w')

  -- One round of the loop over the simulations.
  unfoldable pub run_simulation : Simulation → Bool → ℕ → W → List (Event E) × W
  run_simulation sim last_sim size w =
      let (events, w') = after_init sim last_sim size (modules.init sim w) in
      (initialised sim ∷ events, w')

  unfoldable pub run : List Simulation → ℕ → W → List (Event E) × W
  run [] size w = ([], w)
  run (sim ∷ sims) size w =
      let (events, w') = run_simulation sim (is_empty sims) size w in
      let (later, w'') = run sims size w' in (events ++ later, w'')
