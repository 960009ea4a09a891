-- ===== src/Cmd/Run/Balance.antt =====
-- What the world is like behind `run`, and where panics come from, by laws of the modules' methods.
use flightsim.Prelude.{
  ℕ, ◌+◌, ◌≡◌, refl, inl, inr, Bool, true, false, ◌&&◌, List, [], ◌∷◌, Option, none, some, ltb,
  ◌==◌, if◌then◌else◌, length, Bool-cases,
}
use flightsim.Prelude.Bytes.{Bytes}
use flightsim.Cmd.Select.{Simulation}
use flightsim.Cmd.Run.{
  Ending, fine, failed, panicked, Modules, Event, is_empty, after_simulate, run_hosts, pick_hosts,
  after_hosts, after_init, run_simulation, run,
}

-- The laws of modules that close in `Cleanup` what `Init` opens, and of which only those give up in
-- `Hosts` that have nothing open. `Open` is what holds between the two.
pub record IsBalanced {W E : Type 0} (modules : Modules W E) (Closed : W → Type 0)
    (Open : Simulation → W → Type 0) : Type 0 where
  pub init_opens : (sim : Simulation) (w : W) → Closed w → Open sim (modules.init sim w).1
  pub hosts_keeps :
      (sim : Simulation) (scope : Bytes) (size : ℕ) (w : W)
      → Open sim w
      → Open sim (modules.hosts sim scope size w).2
  pub hosts_fails :
      (sim : Simulation) (scope : Bytes) (size : ℕ) (w : W) (e : E)
      → Open sim w
      → (modules.hosts sim scope size w).1 ≡ some e
      → Closed (modules.hosts sim scope size w).2
  pub simulate_keeps :
      (sim : Simulation) (host : Bytes) (w : W)
      → Open sim w
      → Open sim (modules.simulate sim host w).1
  pub perm_keeps : (sim : Simulation) (n : ℕ) (w : W) → Open sim w → Open sim (modules.perm n w).1
  pub cleanup_closes : (sim : Simulation) (w : W) → Open sim w → Closed (modules.cleanup sim w)

module _ {W E : Type 0} (modules : Modules W E) (fast : Bool) where
  -- A property that `Simulate` keeps, the loop over the hosts keeps.
  module _ (P : W → Type 0) where
    after_simulate-keeps :
        (dry_run : Bool) (sim : Simulation) (last_sim : Bool) (host : Bytes) (last_host : Bool)
        (n : ℕ) (loop : ℕ → W → List (Event E) × ℕ × W) (t : Ending E × W)
        → P t.1
        → ((m : ℕ) (v : W) → P v → P (loop m v).2)
        → P (after_simulate modules fast dry_run sim last_sim host last_host n loop t).2
    after_simulate-keeps dry_run sim last_sim host last_host n loop (fine, w) p later =
        later (n + 1) w p
    after_simulate-keeps dry_run sim last_sim host last_host n loop (failed e, w) p later =
        later n w p
    after_simulate-keeps dry_run sim last_sim host last_host n loop (panicked, w) p later = p

    run_hosts-keeps :
        (dry_run : Bool) (sim : Simulation) (last_sim : Bool) (hosts : List Bytes) (n : ℕ) (w : W)
        → ((host : Bytes) (v : W) → P v → P (modules.simulate sim host v).1)
        → P w
        → P (run_hosts modules fast dry_run sim last_sim hosts n w).2
    unfolding run_hosts
    run_hosts-keeps true sim last_sim [] n w keeps p = p
    run_hosts-keeps false sim last_sim [] n w keeps p = p
    run_hosts-keeps true sim last_sim (host ∷ rest) n w keeps p =
        run_hosts-keeps true sim last_sim rest n w keeps p
    run_hosts-keeps false sim last_sim (host ∷ rest) n w keeps p =
        after_simulate-keeps false sim last_sim host (is_empty rest) n
          (run_hosts modules fast false sim last_sim rest) (modules.simulate sim host w)
          (keeps host w p) (λ m v q. run_hosts-keeps false sim last_sim rest m v keeps q)

    pub pick_hosts-keeps :
        (dry_run : Bool) (wanted : ℕ) (hosts : List Bytes) (w : W)
        → ((n : ℕ) (v : W) → P v → P (modules.perm n v).1)
        → P w
        → P (pick_hosts modules fast dry_run wanted hosts w).1
    unfolding pick_hosts
    pick_hosts-keeps dry_run wanted hosts w keeps p =
        elim (Bool-cases (ltb 0 wanted && ltb wanted (length hosts))) [
          | inl many ↦ rw many (keeps (length hosts) w p)
          | inr few ↦ rw few p
        ]

  module _ (dry_run : Bool) (Closed : W → Type 0) (Open : Simulation → W → Type 0)
      (laws : IsBalanced modules Closed Open) where
    after_hosts-closes :
        (sim : Simulation) (last_sim : Bool) (wanted : ℕ) (t : List Bytes × Option E × W)
        → Open sim t.2
        → ((e : E) → t.1 ≡ some e → Closed t.2)
        → Closed (after_hosts modules fast dry_run sim last_sim wanted t).1
    after_hosts-closes sim last_sim wanted (hosts, some e, w) p gives_up = gives_up e refl
    after_hosts-closes sim last_sim wanted (hosts, none, w) p gives_up =
        let (picked, w') = pick_hosts modules fast dry_run wanted hosts w in
        laws.cleanup_closes sim (run_hosts modules fast dry_run sim last_sim picked 0 w').2 (
          run_hosts-keeps (Open sim) dry_run sim last_sim picked 0 w' (laws.simulate_keeps sim)
            (pick_hosts-keeps (Open sim) dry_run wanted hosts w (laws.perm_keeps sim) p))

    after_init-closes :
        (sim : Simulation) (last_sim : Bool) (size : ℕ) (t : Option E × W)
        → Open sim t.1
        → Closed (after_init modules fast dry_run sim last_sim size t).1
    after_init-closes sim last_sim size (some e, w) p = laws.cleanup_closes sim w p
    after_init-closes sim last_sim size (none, w) p =
        let wanted = if size == 0 then sim.module_of.num_of_hosts else size in
        after_hosts-closes sim last_sim wanted (modules.hosts sim sim.scope wanted w)
          (laws.hosts_keeps sim sim.scope wanted w p)
          (λ e. laws.hosts_fails sim sim.scope wanted w e p)

    -- `run` leaves closed what it finds closed, if the modules are balanced.
    pub run-Closed :
        (sims : List Simulation) (size : ℕ) (w : W)
        → Closed w
        → Closed (run modules fast dry_run sims size w).1
    unfolding run run_simulation
    run-Closed [] size w p = p
    run-Closed (sim ∷ sims) size w p =
        run-Closed sims size (run_simulation modules fast dry_run sim (is_empty sims) size w).1 (
          after_init-closes sim (is_empty sims) size (modules.init sim w) (laws.init_opens sim w p))
