-- ===== src/Cmd/Run/Modes.antt =====
-- The flags of `run`: a dry run, and the fast mode.
use flightsim.Prelude.{
  ℕ, ◌+◌, ◌*◌, ◌≡◌, refl, Bool, true, false, List, [], ◌∷◌, Option, none, some, ◌==◌, if◌then◌else◌,
  length, arith,
}
use flightsim.Prelude.Bytes.{Bytes}
use flightsim.Cmd.Modules.{format_host}
use flightsim.Cmd.Select.{Simulation}
use flightsim.Cmd.Run.{
  Ending, fine, failed, panicked, Modules, Message, Event, printed, initialised, asked_hosts,
  cleaned_up, print_msg, is_empty, after_simulate, run_hosts, pick_hosts, after_hosts, after_init,
  run_simulation, run,
}
use flightsim.Cmd.Run.Trace.{
  tally, tally-append, tally-print_msg, is_simulated, is_waited, is_initialised, IgnoresPrint,
}

-- A count that ignores printed lines and the calls that every round makes.
abbrev pub IgnoresRounds : {E : Type 0} → (Event E → ℕ) → Type 0
IgnoresRounds {E = E} f =
    ((sim : Simulation) (m : Message E) → f (printed sim m) ≡ 0)
    × ((sim : Simulation) (n : ℕ) → f (asked_hosts sim n) ≡ 0)
    × ((sim : Simulation) → f (cleaned_up sim) ≡ 0)

module _ {W E : Type 0} (modules : Modules W E) (fast dry_run : Bool) (f : Event E → ℕ)
    (quiet : IgnoresRounds f)
    (loop : (sim : Simulation) (last_sim : Bool) (hosts : List Bytes) (w : W)
      → tally f (run_hosts modules fast dry_run sim last_sim hosts 0 w).0 ≡ 0) where
  tally-after_hosts :
      (sim : Simulation) (last_sim : Bool) (wanted : ℕ) (t : List Bytes × Option E × W)
      → tally f (after_hosts modules fast dry_run sim last_sim wanted t).0 ≡ 0
  unfolding tally
  tally-after_hosts sim last_sim wanted (hosts, some e, w) = omega (arith, quiet.0 sim)
  tally-after_hosts sim last_sim wanted (hosts, none, w) =
      let (picked, w') = pick_hosts modules fast dry_run wanted hosts w in
      let r = run_hosts modules fast dry_run sim last_sim picked 0 w' in
      rw (tally-append f r.0) (omega (arith, loop sim last_sim picked w', quiet.0 sim, quiet.2 sim))

  tally-after_init :
      (sim : Simulation) (last_sim : Bool) (size : ℕ) (t : Option E × W)
      → tally f (after_init modules fast dry_run sim last_sim size t).0 ≡ 0
  unfolding tally
  tally-after_init sim last_sim size (some e, w) = omega (arith, quiet.0 sim, quiet.2 sim)
  tally-after_init sim last_sim size (none, w) =
      let wanted = if size == 0 then sim.module_of.num_of_hosts else size in
      rw (tally-append f (print_msg sim sim.module_of.header_msg)) (
        omega (
          arith,
          tally-print_msg f quiet.0 sim sim.module_of.header_msg,
          quiet.1 sim wanted,
          tally-after_hosts sim last_sim wanted (modules.hosts sim sim.scope wanted w),
        ))

  -- Each round counts for its call of `Init` alone.
  tally-run :
      (cost : ℕ)
      → ((sim : Simulation) → f (initialised sim) ≡ cost)
      → (sims : List Simulation) (size : ℕ) (w : W)
      → tally f (run modules fast dry_run sims size w).0 ≡ length sims * cost
  unfolding run tally run_simulation
  tally-run cost starts [] size w = omega arith
  tally-run cost starts (sim ∷ sims) size w =
      let (events, w') =
        after_init modules fast dry_run sim (is_empty sims) size (modules.init sim w) in
      rw (tally-append f events) (
        omega (
          arith,
          starts sim,
          tally-after_init sim (is_empty sims) size (modules.init sim w),
          tally-run cost starts sims size w',
        ))

module _ {W E : Type 0} (modules : Modules W E) where
  -- In a dry run the loop over the hosts only prints.
  run_hosts_dry :
      (fast : Bool) (f : Event E → ℕ)
      → IgnoresPrint f
      → (sim : Simulation) (last_sim : Bool) (hosts : List Bytes) (n : ℕ) (w : W)
      → tally f (run_hosts modules fast true sim last_sim hosts n w).0 ≡ 0
  unfolding run_hosts
  run_hosts_dry fast f quiet sim last_sim [] n w = unfold tally in refl
  run_hosts_dry fast f quiet sim last_sim (host ∷ rest) n w =
      let msg = format_host (modules.host_msg sim w) sim.module_of host in
      rw (tally-append f (print_msg sim msg)) (
        omega (
          arith,
          tally-print_msg f quiet sim msg,
          run_hosts_dry fast f quiet sim last_sim rest n w,
        ))

  -- A dry run of `run` calls `Init` of every simulation, but it calls `Simulate` of none and waits
  -- for nothing.
  pub run_dry :
      (fast : Bool) (sims : List Simulation) (size : ℕ) (w : W)
      → let events = (run modules fast true sims size w).0 in
        (tally is_initialised events ≡ length sims)
        × (tally is_simulated events ≡ 0)
        × (tally is_waited events ≡ 0)
  run_dry fast sims size w =
      let count = λ (f : Event E → ℕ) (q : IgnoresRounds f).
        tally-run modules fast true f q
          (λ sim l hosts v. run_hosts_dry fast f q.0 sim l hosts 0 v) in
      (
        omega (
          arith,
          count is_initialised (λ _ _. refl, λ _ _. refl, λ _. refl) 1 (λ _. refl) sims size w,
        ),
        omega (
          arith,
          count is_simulated (λ _ _. refl, λ _ _. refl, λ _. refl) 0 (λ _. refl) sims size w,
        ),
        omega (
          arith,
          count is_waited (λ _ _. refl, λ _ _. refl, λ _. refl) 0 (λ _. refl) sims size w,
        ),
      )

  called_fast :
      (dry_run : Bool) (sim : Simulation) (last_sim : Bool) (host : Bytes) (last_host : Bool)
      (n : ℕ) (loop : ℕ → W → List (Event E) × ℕ × W) (t : Ending E × W)
      → ((n' : ℕ) (w' : W) → tally is_waited (loop n' w').0 ≡ 0)
      → tally is_waited (after_simulate modules true dry_run sim last_sim host last_host n loop t).0
        ≡ 0
  unfolding tally
  called_fast dry_run sim last_sim host last_host n loop (fine, w) h = h (n + 1) w
  called_fast dry_run sim last_sim host last_host n loop (failed e, w) h = omega (arith, h n w)
  called_fast dry_run sim last_sim host last_host n loop (panicked, w) h = omega arith

  run_hosts_fast :
      (dry_run : Bool) (sim : Simulation) (last_sim : Bool) (hosts : List Bytes) (n : ℕ) (w : W)
      → tally is_waited (run_hosts modules true dry_run sim last_sim hosts n w).0 ≡ 0
  unfolding run_hosts tally
  run_hosts_fast dry_run sim last_sim [] n w = refl
  run_hosts_fast true sim last_sim (host ∷ rest) n w =
      let msg = format_host (modules.host_msg sim w) sim.module_of host in
      rw (tally-append is_waited (print_msg sim msg)) (
        omega (
          arith,
          tally-print_msg is_waited (λ _ _. refl) sim msg,
          run_hosts_fast true sim last_sim rest n w,
        ))
  run_hosts_fast false sim last_sim (host ∷ rest) n w =
      let msg = format_host (modules.host_msg sim w) sim.module_of host in
      let loop = run_hosts modules true false sim last_sim rest in
      let later =
        called_fast false sim last_sim host (is_empty rest) n loop (modules.simulate sim host w)
          (run_hosts_fast false sim last_sim rest) in
      rw (tally-append is_waited (print_msg sim msg))
        (omega (arith, tally-print_msg is_waited (λ _ _. refl) sim msg, later))

  -- In fast mode `run` never waits for the end of a context, whatever the modules do.
  pub run_fast :
      (dry_run : Bool) (sims : List Simulation) (size : ℕ) (w : W)
      → tally is_waited (run modules true dry_run sims size w).0 ≡ 0
  run_fast dry_run sims size w = omega (
    arith,
    tally-run modules true dry_run is_waited (λ _ _. refl, λ _ _. refl, λ _. refl)
        (λ sim l hosts v. run_hosts_fast dry_run sim l hosts 0 v) 0 (λ _. refl) sims size w,
  )
