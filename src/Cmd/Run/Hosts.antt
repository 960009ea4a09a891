-- ===== src/Cmd/Run/Hosts.antt =====
-- For which hosts a round of `run` calls `Simulate`.
use flightsim.Prelude.{
  ℕ, zero, suc, ◌+◌, ◌<◌, inl, inr, Bool, true, false, not, ◌&&◌, ◌||◌, List, [], ◌∷◌, ◌++◌, Option,
  none, some, ltb, ◌==◌, if◌then◌else◌, length, take, get_or, map, All, All-take, Bool-cases, arith,
}
use flightsim.Prelude.Bytes.{Bytes, bytes_eq}
use flightsim.Cmd.Modules.{format_host}
use flightsim.Cmd.Select.{Simulation}
use flightsim.Cmd.Run.{
  Ending, fine, failed, panicked, Modules, Event, printed, initialised, asked_hosts, simulated,
  waited, cleaned_up, print_msg, is_empty, wait, after_simulate, run_hosts, pick_hosts, after_hosts,
  after_init, run_simulation, run,
}

-- The calls of `Simulate`, each with its host, in order.
unfoldable pub simulated_hosts : {E : Type 0} → List (Event E) → List (Simulation × Bytes)
simulated_hosts [] = []
simulated_hosts (simulated sim host ∷ es) = (sim, host) ∷ simulated_hosts es
simulated_hosts (printed _ _ ∷ es) = simulated_hosts es
simulated_hosts (initialised _ ∷ es) = simulated_hosts es
simulated_hosts (asked_hosts _ _ ∷ es) = simulated_hosts es
simulated_hosts (waited _ ∷ es) = simulated_hosts es
simulated_hosts (cleaned_up _ ∷ es) = simulated_hosts es

-- The generator's permutations of `n` numbers are of numbers below `n`.
abbrev pub IsBelow : {W : Type 0} → (ℕ → W → List ℕ × W) → Type 0
IsBelow {W = W} perm = (n : ℕ) (w : W) → All (λ k. k < n) (perm n w).0

module _ {E : Type 0} (P : Simulation → Bytes → Type 0) where
  -- Every call of `Simulate` is for a simulation and a host with the property.
  abbrev pub Calls : List (Event E) → Type 0
  Calls es = All (λ call. P call.0 call.1) (simulated_hosts es)

  Calls-append : (a b : List (Event E)) → Calls a → Calls b → Calls (a ++ b)
  unfolding simulated_hosts
  Calls-append [] b ha hb = hb
  Calls-append (simulated sim host ∷ a) b (p, ha) hb = (p, Calls-append a b ha hb)
  Calls-append (printed _ _ ∷ a) b ha hb = Calls-append a b ha hb
  Calls-append (initialised _ ∷ a) b ha hb = Calls-append a b ha hb
  Calls-append (asked_hosts _ _ ∷ a) b ha hb = Calls-append a b ha hb
  Calls-append (waited _ ∷ a) b ha hb = Calls-append a b ha hb
  Calls-append (cleaned_up _ ∷ a) b ha hb = Calls-append a b ha hb

module _ (P : Simulation → Bytes → Type 0) where
  Calls-print_msg :
      (E : Type 0) (sim : Simulation) (msg : Bytes) → Calls {E = E} P (print_msg sim msg)
  unfolding simulated_hosts
  Calls-print_msg E sim msg = elim (Bool-cases (bytes_eq msg [])) [
    | inl e ↦ rw e tt
    | inr e ↦ rw e tt
  ]

module _ (P : Bytes → Type 0) where
  get_or-All : (hosts : List Bytes) (k : ℕ) → k < length hosts → All P hosts → P (get_or hosts k [])
  get_or-All [] k lt h = absurd (omega arith)
  get_or-All (x ∷ hosts) zero lt h = h.0
  get_or-All (x ∷ hosts) (suc k) lt h = get_or-All hosts k (omega arith) h.1

  picked-All :
      (hosts : List Bytes) (order : List ℕ)
      → All P hosts
      → All (λ k. k < length hosts) order
      → All P (map (λ k. get_or hosts k []) order)
  picked-All hosts [] h below = tt
  picked-All hosts (k ∷ order) h (lt, below) =
      (get_or-All hosts k lt h, picked-All hosts order h below)

module _ {W E : Type 0} (modules : Modules W E) (fast : Bool)
    (P : Simulation → Bytes → Type 0) where
  Calls-wait :
      (dry_run : Bool) (sim : Simulation) (last_sim last_host : Bool)
      → Calls P (wait modules fast dry_run sim last_sim last_host)
  unfolding simulated_hosts
  Calls-wait dry_run sim last_sim last_host =
      elim (Bool-cases (not (fast || sim.module_of.fast) && (not last_sim || not last_host))) [
        | inl e ↦ rw e tt
        | inr e ↦ rw e tt
      ]

  Calls-after_simulate :
      (dry_run : Bool) (sim : Simulation) (last_sim : Bool) (host : Bytes) (last_host : Bool)
      (n : ℕ) (loop : ℕ → W → List (Event E) × ℕ × W) (t : Ending E × W)
      → ((m : ℕ) (v : W) → Calls P (loop m v).0)
      → Calls P (after_simulate modules fast dry_run sim last_sim host last_host n loop t).0
  unfolding simulated_hosts
  Calls-after_simulate dry_run sim last_sim host last_host n loop (fine, w) later =
      Calls-append P (wait modules fast dry_run sim last_sim last_host) (loop (n + 1) w).0
        (Calls-wait dry_run sim last_sim last_host) (later (n + 1) w)
  Calls-after_simulate dry_run sim last_sim host last_host n loop (failed e, w) later =
      Calls-append P (wait modules fast dry_run sim last_sim last_host) (loop n w).0
        (Calls-wait dry_run sim last_sim last_host) (later n w)
  Calls-after_simulate dry_run sim last_sim host last_host n loop (panicked, w) later = tt

  Calls-run_hosts :
      (dry_run : Bool) (sim : Simulation) (last_sim : Bool) (hosts : List Bytes) (n : ℕ) (w : W)
      → All (P sim) hosts
      → Calls P (run_hosts modules fast dry_run sim last_sim hosts n w).0
  unfolding run_hosts simulated_hosts
  Calls-run_hosts true sim last_sim [] n w h = tt
  Calls-run_hosts false sim last_sim [] n w h = tt
  Calls-run_hosts true sim last_sim (host ∷ rest) n w (p, h) =
      let msg = format_host (modules.host_msg sim w) sim.module_of host in
      Calls-append P (print_msg sim msg) _ (Calls-print_msg P E sim msg)
        (Calls-run_hosts true sim last_sim rest n w h)
  Calls-run_hosts false sim last_sim (host ∷ rest) n w (p, h) =
      let msg = format_host (modules.host_msg sim w) sim.module_of host in
      let loop = run_hosts modules fast false sim last_sim rest in
      let called =
        Calls-after_simulate false sim last_sim host (is_empty rest) n loop
          (modules.simulate sim host w) (λ m v. Calls-run_hosts false sim last_sim rest m v h) in
      Calls-append P (print_msg sim msg) _ (Calls-print_msg P E sim msg) (p, called)

  module _ (perm : IsBelow modules.perm) where
    pick_hosts-All :
        (sim : Simulation) (dry_run : Bool) (wanted : ℕ) (hosts : List Bytes) (w : W)
        → All (P sim) hosts
        → All (P sim) (pick_hosts modules fast dry_run wanted hosts w).0
    unfolding pick_hosts
    pick_hosts-All sim dry_run wanted hosts w h =
        elim (Bool-cases (ltb 0 wanted && ltb wanted (length hosts))) [
          | inl many ↦ rw many (
              picked-All (P sim) hosts (take wanted (modules.perm (length hosts) w).0) h (
                All-take (λ k. k < length hosts) wanted (modules.perm (length hosts) w).0
                  (perm (length hosts) w)))
          | inr few ↦ rw few h
        ]

    Calls-after_hosts :
        (dry_run : Bool) (sim : Simulation) (last_sim : Bool) (wanted : ℕ)
        (t : List Bytes × Option E × W)
        → All (P sim) t.0
        → Calls P (after_hosts modules fast dry_run sim last_sim wanted t).0
    unfolding simulated_hosts
    Calls-after_hosts dry_run sim last_sim wanted (hosts, some e, w) h = tt
    Calls-after_hosts dry_run sim last_sim wanted (hosts, none, w) h =
        let (picked, w') = pick_hosts modules fast dry_run wanted hosts w in
        Calls-append P (run_hosts modules fast dry_run sim last_sim picked 0 w').0 _
          (Calls-run_hosts dry_run sim last_sim picked 0 w'
            (pick_hosts-All sim dry_run wanted hosts w h))
          tt

    Calls-after_init :
        (dry_run : Bool) (sim : Simulation) (last_sim : Bool) (size : ℕ) (t : Option E × W)
        → ((wanted : ℕ) (v : W) → All (P sim) (modules.hosts sim sim.scope wanted v).0)
        → Calls P (after_init modules fast dry_run sim last_sim size t).0
    unfolding simulated_hosts
    Calls-after_init dry_run sim last_sim size (some e, w) h = tt
    Calls-after_init dry_run sim last_sim size (none, w) h =
        let wanted = if size == 0 then sim.module_of.num_of_hosts else size in
        Calls-append P (print_msg sim sim.module_of.header_msg) _
          (Calls-print_msg P E sim sim.module_of.header_msg)
          (Calls-after_hosts dry_run sim last_sim wanted (modules.hosts sim sim.scope wanted w)
            (h wanted w))

    -- If all hosts that `Hosts` gives have a property, so has every host for which a round of `run`
    -- calls `Simulate`.
    pub run_simulation-Calls :
        (dry_run : Bool) (sim : Simulation) (last_sim : Bool) (size : ℕ) (w : W)
        → ((wanted : ℕ) (v : W) → All (P sim) (modules.hosts sim sim.scope wanted v).0)
        → Calls P (run_simulation modules fast dry_run sim last_sim size w).0
    unfolding run_simulation simulated_hosts
    run_simulation-Calls dry_run sim last_sim size w h =
        Calls-after_init dry_run sim last_sim size (modules.init sim w) h

    -- If all hosts that `Hosts` gives for a simulation have a property, so has every host for which
    -- `run` calls its `Simulate`.
    pub run-Calls :
        (dry_run : Bool) (sims : List Simulation) (size : ℕ) (w : W)
        → ((sim : Simulation) (wanted : ℕ) (v : W)
            → All (P sim) (modules.hosts sim sim.scope wanted v).0)
        → Calls P (run modules fast dry_run sims size w).0
    unfolding run simulated_hosts
    run-Calls dry_run [] size w h = tt
    run-Calls dry_run (sim ∷ sims) size w h =
        let (events, w') = run_simulation modules fast dry_run sim (is_empty sims) size w in
        Calls-append P events (run modules fast dry_run sims size w').0
          (run_simulation-Calls dry_run sim (is_empty sims) size w (h sim))
          (run-Calls dry_run sims size w' h)
