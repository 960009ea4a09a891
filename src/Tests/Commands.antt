-- ===== src/Tests/Commands.antt =====
-- The theorems on v2/cmd/run/run.go at a concrete table and concrete modules.
use flightsim.Prelude.{
  ℕ, ◌+◌, ◌<◌, ◌≤◌, ◌≡◌, ◌↔◌, refl, List, [], ◌∷◌, none, some, true, false, replicate,
  length-replicate, In,
}
use flightsim.Prelude.Bytes.{Bytes, codes}
use flightsim.Cmd.Modules.{Module, port_scan, dns, ip, tunnel, entry}
use flightsim.Cmd.Select.{Simulation, selected, select_simulations}
use flightsim.Cmd.Select.Laws.{IsAskedBy, select_simulations_selected}
use flightsim.Cmd.Run.{fine, Modules, run_simulation}
use flightsim.Cmd.Run.Trace.{tally, is_simulated, is_waited, is_cleaned_up}
use flightsim.Cmd.Run.Bounds.{run_simulation_bounds}
use flightsim.Cmd.Run.Cleanups.{run_simulation_cleanups}

abbrev scan : Module
scan = record (entry port_scan (codes "scan") ip) { num_of_hosts = 2 }

abbrev tunnel_dns : Module
tunnel_dns = entry tunnel (codes "tunnel-dns") dns

abbrev table : List Module
table = scan ∷ tunnel_dns ∷ []

abbrev chosen : Simulation
chosen = record { module_of = tunnel_dns; scope = codes "x"; size = 0 }

-- A module is found by the part of its name in front of the dash.
tunnel_found : select_simulations table (codes "tunnel:x" ∷ []) ≡ selected (chosen ∷ [])
unfolding select_simulations
tunnel_found = refl

select_simulations_selected_example :
    In chosen (chosen ∷ []) ↔ IsAskedBy (codes "tunnel:x" ∷ []) table chosen
select_simulations_selected_example =
    select_simulations_selected table (codes "tunnel:x" ∷ []) (chosen ∷ []) tunnel_found chosen

-- Modules that answer with three hosts, of which the world counts the calls.
abbrev three_hosts : Modules ℕ Bytes
three_hosts = record {
  init = λ sim w. (none, w);
  hosts = λ sim scope size w. (codes "a" ∷ codes "b" ∷ codes "c" ∷ [], none, w);
  simulate = λ sim host w. (fine, w + 1);
  cleanup = λ sim w. w;
  host_msg = λ sim w. none;
  perm = λ n w. (replicate n 0, w);
}

abbrev scan_all : Simulation
scan_all = record { module_of = scan; scope = []; size = 0 }

run_simulation_bounds_example :
    (0 < 2 → tally is_simulated (run_simulation three_hosts false false scan_all true 0 0).0 ≤ 2)
    × (tally is_waited (run_simulation three_hosts false false scan_all true 0 0).0
        ≤ tally is_simulated (run_simulation three_hosts false false scan_all true 0 0).0)
run_simulation_bounds_example =
    run_simulation_bounds three_hosts false false (λ n v. length-replicate n 0) scan_all true 0 0

-- `Hosts` fails, and no call of `Cleanup` follows.
abbrev no_hosts : Modules ℕ Bytes
no_hosts = record three_hosts { hosts = λ sim scope size w. ([], some (codes "lookup"), w) }

run_simulation_cleanups_example :
    tally is_cleaned_up (run_simulation no_hosts false false scan_all true 0 0).0 ≡ 0
run_simulation_cleanups_example = run_simulation_cleanups no_hosts false false scan_all true 0 0
