-- ===== src/Cmd/Run/Bounds.antt =====
-- How often a round of `run` calls `Simulate` and waits.
use flightsim.Prelude.{
  ℕ, ◌<◌, ◌≤◌, ◌≡◌, inl, inr, refl, Bool, List, [], ◌∷◌, Option, none, some, ltb, ◌==◌,
  if◌then◌else◌, length, take, get_or, arith, Bool-cases, length-take, length-map, lt→ltb,
  ltb_false→le,
}
use flightsim.Prelude.Bytes.{Bytes}
use flightsim.Cmd.Select.{Simulation}
use flightsim.Cmd.Run.{
  Modules, finished, success_of, Event, printed, asked_hosts, cleaned_up, print_msg, run_hosts,
  pick_hosts, run_module, after_hosts, after_init, run_simulation,
}
use flightsim.Cmd.Run.Trace.{
  tally, tally-append, tally-print_msg, is_simulated, is_waited, run_hosts-Within,
}

module _ {W E : Type 0} (modules : Modules W E) (fast dry_run : Bool)
    (perm : (n : ℕ) (v : W) → length (modules.perm n v).0 ≡ n) where
  length-pick_hosts :
      (wanted : ℕ) (hosts : List Bytes) (w : W)
      → 0 < wanted
      → length (pick_hosts modules fast dry_run wanted hosts w).0 ≤ wanted
  unfolding pick_hosts
  length-pick_hosts wanted hosts w h = elim (Bool-cases (ltb wanted (length hosts))) [
    | inl many ↦
        rw (lt→ltb 0 wanted h, many)
          (omega (
            arith,
            length-map (take wanted (modules.perm (length hosts) w).0) (λ k. get_or hosts k []),
            length-take wanted (modules.perm (length hosts) w).0,
          ))
    | inr few ↦ rw (lt→ltb 0 wanted h, few) (ltb_false→le wanted (length hosts) few)
  ]

  Bounded : ℕ → List (Event E) → Type 0
  Bounded wanted events =
      (0 < wanted → tally is_simulated events ≤ wanted)
      × (tally is_waited events ≤ tally is_simulated events)

  run_module-Bounded :
      (sim : Simulation) (last_sim : Bool) (wanted : ℕ) (hosts : List Bytes) (w : W)
      → (0 < wanted → length hosts ≤ wanted)
      → Bounded wanted (run_module modules fast dry_run sim last_sim hosts w).0
  unfolding Bounded tally
  run_module-Bounded sim last_sim wanted hosts w few =
      let es = (run_hosts modules fast dry_run sim last_sim hosts 0 w).0 in
      let last =
        printed sim (
          finished (run_hosts modules fast dry_run sim last_sim hosts 0 w).1 (length hosts)
            (success_of sim.module_of (run_hosts modules fast dry_run sim last_sim hosts 0 w).1))
        ∷ cleaned_up sim
        ∷ [] in
      let bound = run_hosts-Within modules fast dry_run sim last_sim hosts 0 w in
      rw (tally-append is_simulated es last, tally-append is_waited es last)
        (λ h. omega (arith, few h), omega arith)

  after_hosts-Bounded :
      (sim : Simulation) (last_sim : Bool) (wanted : ℕ) (t : List Bytes × Option E × W)
      → Bounded wanted (after_hosts modules fast dry_run sim last_sim wanted t).0
  after_hosts-Bounded sim last_sim wanted (hosts, some e, w) =
      unfold Bounded tally in (λ h. omega arith, omega arith)
  after_hosts-Bounded sim last_sim wanted (hosts, none, w) =
      run_module-Bounded sim last_sim wanted _ _ (length-pick_hosts wanted hosts w)

  after_init-Bounded :
      (sim : Simulation) (last_sim : Bool) (size : ℕ) (t : Option E × W)
      → Bounded
          (if size == 0 then sim.module_of.num_of_hosts else size)
          (after_init modules fast dry_run sim last_sim size t).0
  unfolding Bounded tally
  after_init-Bounded sim last_sim size (some e, w) = (λ h. omega arith, omega arith)
  after_init-Bounded sim last_sim size (none, w) =
      let wanted = if size == 0 then sim.module_of.num_of_hosts else size in
      let later = after_hosts-Bounded sim last_sim wanted (modules.hosts sim sim.scope wanted w) in
      let line = print_msg {E = E} sim sim.module_of.header_msg in
      let es =
        asked_hosts sim wanted
        ∷ (after_hosts modules fast dry_run sim last_sim wanted
            (modules.hosts sim sim.scope wanted w)).0 in
      let quiet = tally-print_msg {E = E} is_simulated (λ _ _. refl) sim sim.module_of.header_msg in
      let still = tally-print_msg {E = E} is_waited (λ _ _. refl) sim sim.module_of.header_msg in
      rw (tally-append is_simulated line es, tally-append is_waited line es)
        (λ h. omega (arith, quiet, later.0 h), omega (arith, quiet, still, later.1))

  -- A round of the loop of `run` calls `Simulate` for as many hosts as wanted at most, if a number is
  -- wanted, and waits no more often than it calls. The generator's permutations have the length
  -- asked for.
  pub run_simulation_bounds :
      (sim : Simulation) (last_sim : Bool) (size : ℕ) (w : W)
      → let events = (run_simulation modules fast dry_run sim last_sim size w).0 in
        let wanted = if size == 0 then sim.module_of.num_of_hosts else size in
        (0 < wanted → tally is_simulated events ≤ wanted)
        × (tally is_waited events ≤ tally is_simulated events)
  unfolding run_simulation Bounded tally
  run_simulation_bounds sim last_sim size w =
      let (few, waits) = after_init-Bounded sim last_sim size (modules.init sim w) in
      (λ h. omega (arith, few h), omega (arith, waits))
