-- ===== src/Cmd/Run/Cleanups.antt =====
-- How often a round of `run` calls `Cleanup`.
use flightsim.Prelude.{
  ℕ, ◌≡◌, refl, Bool, List, [], ◌∷◌, Option, none, some, ◌==◌, if◌then◌else◌, length, arith,
}
use flightsim.Prelude.Bytes.{Bytes}
use flightsim.Cmd.Select.{Simulation}
use flightsim.Cmd.Run.{
  Modules, finished, success_of, printed, asked_hosts, cleaned_up, print_msg, run_hosts, pick_hosts,
  after_hosts, after_init, run_simulation,
}
use flightsim.Cmd.Run.Trace.{tally, tally-append, tally-print_msg, is_cleaned_up, run_hosts-Within}

-- How often a round of the loop of `run` calls `Cleanup`, by the answers of `Init` and `Hosts`.
abbrev pub due_cleanups : {W E : Type 0} → (W → List Bytes × Option E × W) → Option E × W → ℕ
due_cleanups hosts (some e, w) = 1
due_cleanups hosts (none, w) = elim (hosts w).1 [ some _ ↦ 0 | none ↦ 1 ]

module _ {W E : Type 0} (modules : Modules W E) (fast dry_run : Bool) where
  after_hosts_cleanups :
      (sim : Simulation) (last_sim : Bool) (wanted : ℕ) (t : List Bytes × Option E × W)
      → tally is_cleaned_up (after_hosts modules fast dry_run sim last_sim wanted t).0
        ≡ elim t.1 [ some _ ↦ 0 | none ↦ 1 ]
  unfolding tally
  after_hosts_cleanups sim last_sim wanted (hosts, some e, w) = omega arith
  after_hosts_cleanups sim last_sim wanted (hosts, none, w) =
      let (picked, w') = pick_hosts modules fast dry_run wanted hosts w in
      let r = run_hosts modules fast dry_run sim last_sim picked 0 w' in
      rw
        (tally-append is_cleaned_up r.0 (
          printed sim (finished r.1 (length picked) (success_of sim.module_of r.1))
          ∷ cleaned_up sim
          ∷ []))
        (omega (arith, run_hosts-Within modules fast dry_run sim last_sim picked 0 w'))

  after_init_cleanups :
      (sim : Simulation) (last_sim : Bool) (size : ℕ) (t : Option E × W)
      → tally is_cleaned_up (after_init modules fast dry_run sim last_sim size t).0
        ≡ due_cleanups
            (modules.hosts sim sim.scope (if size == 0 then sim.module_of.num_of_hosts else size))
            t
  unfolding tally
  after_init_cleanups sim last_sim size (some e, w) = omega arith
  after_init_cleanups sim last_sim size (none, w) =
      let wanted = if size == 0 then sim.module_of.num_of_hosts else size in
      let es =
        asked_hosts sim wanted
        ∷ (after_hosts modules fast dry_run sim last_sim wanted
            (modules.hosts sim sim.scope wanted w)).0 in
      rw (tally-append is_cleaned_up (print_msg sim sim.module_of.header_msg) es) (
        omega (
          arith,
          tally-print_msg {E = E} is_cleaned_up (λ _ _. refl) sim sim.module_of.header_msg,
          after_hosts_cleanups sim last_sim wanted (modules.hosts sim sim.scope wanted w),
        ))

  -- A round of the loop of `run` calls `Cleanup` once, also if `Init` fails or a call of `Simulate`
  -- panics, but not at all if `Init` succeeds and `Hosts` fails.
  pub run_simulation_cleanups :
      (sim : Simulation) (last_sim : Bool) (size : ℕ) (w : W)
      → tally is_cleaned_up (run_simulation modules fast dry_run sim last_sim size w).0
        ≡ due_cleanups
            (modules.hosts sim sim.scope (if size == 0 then sim.module_of.num_of_hosts else size))
            (modules.init sim w)
  unfolding run_simulation tally
  run_simulation_cleanups sim last_sim size w =
      omega (arith, after_init_cleanups sim last_sim size (modules.init sim w))
