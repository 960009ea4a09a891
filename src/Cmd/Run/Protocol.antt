-- ===== src/Cmd/Run/Protocol.antt =====
-- A run as rounds, each a path through the phases of a state machine.
use flightsim.Prelude.{
  ℕ, ◌+◌, ◌≡◌, refl, Bool, true, false, not, ◌&&◌, ◌||◌, List, [], ◌∷◌, ◌++◌, Option, none, some,
  inl, inr, Bool-cases, ◌==◌, if◌then◌else◌, arith,
}
use flightsim.Prelude.Bytes.{Bytes, bytes_eq, bytes_eq_iff}
use flightsim.Cmd.Modules.{format_host}
use flightsim.Cmd.Select.{Simulation}
use flightsim.Cmd.Run.{
  Ending, fine, failed, panicked, Modules, text, fatal_init, fatal_terminated, host_error, finished,
  Event, printed, initialised, asked_hosts, simulated, waited, cleaned_up, print_msg, is_empty,
  success_of, wait, after_simulate, run_hosts, pick_hosts, after_hosts, after_init, run_simulation,
  run,
}

-- The phases of a round, with the state of the world, the answer that a module has just given, the
-- hosts that are left, and the number of hosts that went well.
pub data Phase (W E : Type 0) : Type 0 where
  idle : W → Phase W E
  starting : Option E × W → Phase W E
  headed : W → Phase W E
  listing : ℕ → List Bytes × Option E × W → Phase W E
  looping : ℕ → List Bytes → W → Phase W E
  announced : ℕ → Bytes → List Bytes → W → Phase W E
  called : ℕ → Bytes → List Bytes → Ending E × W → Phase W E
  ended : ℕ → List Bytes → W → Phase W E
  finishing : ℕ → W → Phase W E
  closing : W → Phase W E
  over : W → Phase W E

-- The steps from phase to phase, with the event of a step if it has one. What follows `Init`, `Hosts`
-- and `Simulate` depends on their answers.
pub data Move {W E : Type 0} (modules : Modules W E) (sim : Simulation) (fast dry_run : Bool)
    (size : ℕ) : Phase W E → Option (Event E) → Phase W E → Type 0 where
  start :
      (w : W)
      → Move modules sim fast dry_run size
          (idle w)
          (some (initialised sim))
          (starting (modules.init sim w))
  refuse :
      (e : E) (w : W)
      → Move modules sim fast dry_run size
          (starting (some e, w))
          (some (printed sim (fatal_init e)))
          (closing w)
  head :
      (w : W)
      → Move modules sim fast dry_run size
          (starting (none, w))
          (some (printed sim (text sim.module_of.header_msg)))
          (headed w)
  no_head :
      (w : W)
      → sim.module_of.header_msg ≡ []
      → Move modules sim fast dry_run size (starting (none, w)) none (headed w)
  ask :
      (n : ℕ) (w : W)
      → n ≡ (if size == 0 then sim.module_of.num_of_hosts else size)
      → Move modules sim fast dry_run size
          (headed w)
          (some (asked_hosts sim n))
          (listing n (modules.hosts sim sim.scope n w))
  no_hosts :
      (n : ℕ) (hosts : List Bytes) (e : E) (w : W)
      → Move modules sim fast dry_run size
          (listing n (hosts, some e, w))
          (some (printed sim (fatal_init e)))
          (over w)
  listed :
      (n : ℕ) (hosts : List Bytes) (w : W)
      → Move modules sim fast dry_run size (listing n (hosts, none, w)) none (
          looping 0
            (pick_hosts modules fast dry_run n hosts w).0
            (pick_hosts modules fast dry_run n hosts w).1)
  announce :
      (m : Bytes) (n : ℕ) (host : Bytes) (rest : List Bytes) (w : W)
      → Move modules sim fast dry_run size
          (looping n (host ∷ rest) w)
          (some (printed sim (text m)))
          (announced n host rest w)
  no_announcement :
      (n : ℕ) (host : Bytes) (rest : List Bytes) (w : W)
      → Move modules sim fast dry_run size
          (looping n (host ∷ rest) w)
          none
          (announced n host rest w)
  skip :
      (n : ℕ) (host : Bytes) (rest : List Bytes) (w : W)
      → dry_run ≡ true
      → Move modules sim fast dry_run size (announced n host rest w) none (looping n rest w)
  call :
      (n : ℕ) (host : Bytes) (rest : List Bytes) (w : W)
      → dry_run ≡ false
      → Move modules sim fast dry_run size
          (announced n host rest w)
          (some (simulated sim host))
          (called n host rest (modules.simulate sim host w))
  succeed :
      (n : ℕ) (host : Bytes) (rest : List Bytes) (w : W)
      → Move modules sim fast dry_run size
          (called n host rest (fine, w))
          none
          (ended (n + 1) rest w)
  fail :
      (n : ℕ) (host : Bytes) (rest : List Bytes) (e : E) (w : W)
      → Move modules sim fast dry_run size
          (called n host rest (failed e, w))
          (some (printed sim (host_error host e)))
          (ended n rest w)
  panic :
      (n : ℕ) (host : Bytes) (rest : List Bytes) (w : W)
      → Move modules sim fast dry_run size
          (called n host rest (panicked, w))
          (some (printed sim fatal_terminated))
          (finishing n w)
  sleep :
      (n : ℕ) (rest : List Bytes) (w : W)
      → fast || sim.module_of.fast ≡ false
      → Move modules sim fast dry_run size (ended n rest w) (some (waited sim)) (looping n rest w)
  no_sleep :
      (n : ℕ) (rest : List Bytes) (w : W)
      → Move modules sim fast dry_run size (ended n rest w) none (looping n rest w)
  leave : (n : ℕ) (w : W) → Move modules sim fast dry_run size (looping n [] w) none (finishing n w)
  finish :
      (n all : ℕ) (w : W)
      → Move modules sim fast dry_run size
          (finishing n w)
          (some (printed sim (finished n all (success_of sim.module_of n))))
          (closing w)
  clean :
      (w : W)
      → Move modules sim fast dry_run size
          (closing w)
          (some (cleaned_up sim))
          (over (modules.cleanup sim w))

-- A path, with its events in order.
pub data Route {W E : Type 0} (modules : Modules W E) (sim : Simulation) (fast dry_run : Bool)
    (size : ℕ) : Phase W E → List (Event E) → Phase W E → Type 0 where
  here : {p : Phase W E} → Route modules sim fast dry_run size p [] p
  silent :
      {p q r : Phase W E} {es : List (Event E)}
      → Move modules sim fast dry_run size p none q
      → Route modules sim fast dry_run size q es r
      → Route modules sim fast dry_run size p es r
  emit :
      {p q r : Phase W E} {e : Event E} {es : List (Event E)}
      → Move modules sim fast dry_run size p (some e) q
      → Route modules sim fast dry_run size q es r
      → Route modules sim fast dry_run size p (e ∷ es) r

module _ {W E : Type 0} {modules : Modules W E} {sim : Simulation} {fast dry_run : Bool}
    {size : ℕ} where
  Route-append :
      {p q r : Phase W E} {a b : List (Event E)}
      → Route modules sim fast dry_run size p a q
      → Route modules sim fast dry_run size q b r
      → Route modules sim fast dry_run size p (a ++ b) r
  Route-append here later = later
  Route-append (silent s route) later = silent s (Route-append route later)
  Route-append (emit s route) later = emit s (Route-append route later)

module _ {W E : Type 0} (modules : Modules W E) (sim : Simulation) (fast : Bool) (size : ℕ) where
  header_route :
      (dry_run : Bool) (w : W)
      → Route modules sim fast dry_run size
          (starting (none, w))
          (print_msg sim sim.module_of.header_msg)
          (headed w)
  header_route dry_run w = elim (Bool-cases (bytes_eq sim.module_of.header_msg [])) [
    | inl e ↦ rw e (silent (no_head w ((bytes_eq_iff sim.module_of.header_msg []).0 e)) here)
    | inr e ↦ rw e (emit (head w) here)
  ]

  announcement_route :
      (dry_run : Bool) (m : Bytes) (n : ℕ) (host : Bytes) (rest : List Bytes) (w : W)
      → Route modules sim fast dry_run size
          (looping n (host ∷ rest) w)
          (print_msg sim m)
          (announced n host rest w)
  announcement_route dry_run m n host rest w = elim (Bool-cases (bytes_eq m [])) [
    | inl e ↦ rw e (silent (no_announcement n host rest w) here)
    | inr e ↦ rw e (emit (announce m n host rest w) here)
  ]

  wait_route :
      (dry_run last_sim last_host : Bool) (n : ℕ) (rest : List Bytes) (w : W)
      → Route modules sim fast dry_run size
          (ended n rest w)
          (wait modules fast dry_run sim last_sim last_host)
          (looping n rest w)
  wait_route dry_run last_sim last_host n rest w =
      elim (Bool-cases (not (fast || sim.module_of.fast) && (not last_sim || not last_host))) [
        | inl e ↦ rw e (emit (sleep n rest w (ground arith)) here)
        | inr e ↦ rw e (silent (no_sleep n rest w) here)
      ]

  -- Behind a call of `Simulate`, whether the loop goes on or a panic leaves it.
  simulated_route :
      (last_sim : Bool) (host : Bytes) (rest : List Bytes) (last_host : Bool) (n : ℕ)
      (loop : ℕ → W → List (Event E) × ℕ × W) (t : Ending E × W)
      → ((m : ℕ) (v : W)
          → Route modules sim fast false size
              (looping m rest v)
              (loop m v).0
              (finishing (loop m v).1 (loop m v).2))
      → let r = after_simulate modules fast false sim last_sim host last_host n loop t in
        Route modules sim fast false size (called n host rest t) r.0 (finishing r.1 r.2)
  simulated_route last_sim host rest last_host n loop (fine, w) later =
      silent (succeed n host rest w)
        (Route-append (wait_route false last_sim last_host (n + 1) rest w) (later (n + 1) w))
  simulated_route last_sim host rest last_host n loop (failed e, w) later =
      emit (fail n host rest e w)
        (Route-append (wait_route false last_sim last_host n rest w) (later n w))
  simulated_route last_sim host rest last_host n loop (panicked, w) later =
      emit (panic n host rest w) here

  run_hosts-Route :
      (dry_run last_sim : Bool) (hosts : List Bytes) (n : ℕ) (w : W)
      → let r = run_hosts modules fast dry_run sim last_sim hosts n w in
        Route modules sim fast dry_run size (looping n hosts w) r.0 (finishing r.1 r.2)
  unfolding run_hosts
  run_hosts-Route true last_sim [] n w = silent (leave n w) here
  run_hosts-Route false last_sim [] n w = silent (leave n w) here
  run_hosts-Route true last_sim (host ∷ rest) n w =
      Route-append
        (announcement_route true (format_host (modules.host_msg sim w) sim.module_of host) n host
          rest w)
        (silent (skip n host rest w refl) (run_hosts-Route true last_sim rest n w))
  run_hosts-Route false last_sim (host ∷ rest) n w =
      Route-append
        (announcement_route false (format_host (modules.host_msg sim w) sim.module_of host) n host
          rest w)
        (emit (call n host rest w refl) (
          simulated_route last_sim host rest (is_empty rest) n
            (run_hosts modules fast false sim last_sim rest) (modules.simulate sim host w)
            (λ m v. run_hosts-Route false last_sim rest m v)))

  after_hosts-Route :
      (dry_run last_sim : Bool) (wanted : ℕ) (t : List Bytes × Option E × W)
      → let r = after_hosts modules fast dry_run sim last_sim wanted t in
        Route modules sim fast dry_run size (listing wanted t) r.0 (over r.1)
  after_hosts-Route dry_run last_sim wanted (hosts, some e, w) =
      emit (no_hosts wanted hosts e w) here
  after_hosts-Route dry_run last_sim wanted (hosts, none, w) =
      let (picked, w') = pick_hosts modules fast dry_run wanted hosts w in
      silent (listed wanted hosts w) (
        Route-append (run_hosts-Route dry_run last_sim picked 0 w')
          (emit (finish _ _ _) (emit (clean _) here)))

  after_init-Route :
      (dry_run last_sim : Bool) (t : Option E × W)
      → let r = after_init modules fast dry_run sim last_sim size t in
        Route modules sim fast dry_run size (starting t) r.0 (over r.1)
  after_init-Route dry_run last_sim (some e, w) = emit (refuse e w) (emit (clean w) here)
  after_init-Route dry_run last_sim (none, w) =
      let wanted = if size == 0 then sim.module_of.num_of_hosts else size in
      Route-append (header_route dry_run w) (
        emit (ask wanted w refl)
          (after_hosts-Route dry_run last_sim wanted (modules.hosts sim sim.scope wanted w)))

  run_simulation-Route :
      (dry_run last_sim : Bool) (w : W)
      → let r = run_simulation modules fast dry_run sim last_sim size w in
        Route modules sim fast dry_run size (idle w) r.0 (over r.1)
  unfolding run_simulation
  run_simulation-Route dry_run last_sim w =
      emit (start w) (after_init-Route dry_run last_sim (modules.init sim w))

-- The rounds of a run, one path for each simulation, in order, each from where the last one ended.
pub data Rounds {W E : Type 0} (modules : Modules W E) (fast dry_run : Bool) (size : ℕ)
    : List Simulation → W → List (Event E) → W → Type 0 where
  no_more : {w : W} → Rounds modules fast dry_run size [] w [] w
  round :
      {sim : Simulation} {sims : List Simulation} {es later : List (Event E)} {u v w : W}
      → Route modules sim fast dry_run size (idle u) es (over v)
      → Rounds modules fast dry_run size sims v later w
      → Rounds modules fast dry_run size (sim ∷ sims) u (es ++ later) w

module _ {W E : Type 0} (modules : Modules W E) (fast dry_run : Bool) where
  -- The events of `run` are rounds, one for each simulation in order, whatever the modules do, and each
  -- is a path from `idle` to `over` that begins in the state that the last one left. The answers of the
  -- modules choose the path. So a round calls `Init` first, goes on to `Cleanup` at once if that gives
  -- an error, and calls `Hosts` only if not; an error of `Hosts` ends the round. Each call of `Simulate`
  -- is for the next of the hosts picked and over before the one behind it; if it panics no other comes
  -- in the round, an error of it is printed and else the host counts as good; and none comes in a dry
  -- run. A wait comes behind a call, and not in fast mode. The line with the count of good hosts is
  -- followed by `Cleanup`, which ends the round.
  pub run-Rounds :
      (sims : List Simulation) (size : ℕ) (w : W)
      → let r = run modules fast dry_run sims size w in
        Rounds modules fast dry_run size sims w r.0 r.1
  unfolding run
  run-Rounds [] size w = no_more
  run-Rounds (sim ∷ sims) size w =
      let (events, w') = run_simulation modules fast dry_run sim (is_empty sims) size w in
      round (run_simulation-Route modules sim fast size dry_run (is_empty sims) w)
        (run-Rounds sims size w')
