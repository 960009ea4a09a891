-- ===== src/Cmd/Run/Accounts.antt =====
-- What the lines that `run` prints say about the calls of `Simulate`.
use flightsim.Prelude.{
  ℕ, ◌+◌, ◌≡◌, refl, inl, inr, Bool, true, false, not, ◌&&◌, ◌||◌, List, [], ◌∷◌, ◌++◌, Option,
  none, some, ◌==◌, if◌then◌else◌, length, Bool-cases, arith,
}
use flightsim.Prelude.Bytes.{Bytes, bytes_eq}
use flightsim.Cmd.Modules.{format_host}
use flightsim.Cmd.Select.{Simulation}
use flightsim.Cmd.Run.{
  Ending, fine, failed, panicked, Modules, Event, printed, initialised, asked_hosts, simulated,
  waited, cleaned_up, text, fatal_init, fatal_terminated, host_error, finished, print_msg,
  success_of, is_empty, wait, after_simulate, run_hosts, pick_hosts, after_hosts, after_init,
  run_simulation, run,
}
use flightsim.Cmd.Run.Trace.{tally, tally-append, is_simulated}

-- The calls of `Simulate` that an event reports: the number of good hosts in the line at the end of a
-- module, one for the error of a host, and one for a panic.
abbrev pub reported : {E : Type 0} → Event E → ℕ
reported (printed sim (finished ok_hosts hosts msg)) = ok_hosts
reported (printed sim (host_error host e)) = 1
reported (printed sim fatal_terminated) = 1
reported (printed sim (text m)) = 0
reported (printed sim (fatal_init e)) = 0
reported (initialised sim) = 0
reported (asked_hosts sim n) = 0
reported (simulated sim host) = 0
reported (waited sim) = 0
reported (cleaned_up sim) = 0

-- Calls and reports of a loop that starts from `n` good hosts agree.
abbrev Agrees : {W E : Type 0} → ℕ → List (Event E) × ℕ × W → Type 0
Agrees n (events, m, w) = n + tally is_simulated events ≡ m + tally reported events

print_msg_silent :
    (E : Type 0) (sim : Simulation) (msg : Bytes)
    → (tally {E = E} is_simulated (print_msg sim msg) ≡ 0)
      × (tally {E = E} reported (print_msg sim msg) ≡ 0)
unfolding tally
print_msg_silent E sim msg = elim (Bool-cases (bytes_eq msg [])) [
  | inl e ↦ rw e (refl, refl)
  | inr e ↦ rw e (refl, refl)
]

module _ {W E : Type 0} (modules : Modules W E) (fast : Bool) where
  wait_silent :
      (dry_run : Bool) (sim : Simulation) (last_sim last_host : Bool)
      → let ws = wait modules fast dry_run sim last_sim last_host in
        (tally is_simulated ws ≡ 0) × (tally reported ws ≡ 0)
  unfolding tally
  wait_silent dry_run sim last_sim last_host =
      elim (Bool-cases (not (fast || sim.module_of.fast) && (not last_sim || not last_host))) [
        | inl e ↦ rw e (refl, refl)
        | inr e ↦ rw e (refl, refl)
      ]

  announced-Agrees :
      (sim : Simulation) (msg : Bytes) (n : ℕ) (r : List (Event E) × ℕ × W)
      → Agrees n r
      → Agrees n (print_msg sim msg ++ r.0, r.1, r.2)
  announced-Agrees sim msg n (events, m, w) h =
      let (calls, reports) = print_msg_silent E sim msg in
      omega (
        arith,
        h,
        calls,
        reports,
        tally-append is_simulated (print_msg sim msg) events,
        tally-append reported (print_msg sim msg) events,
      )

  after_simulate-Agrees :
      (sim : Simulation) (last_sim : Bool) (host : Bytes) (last_host : Bool) (n : ℕ)
      (loop : ℕ → W → List (Event E) × ℕ × W) (t : Ending E × W)
      → ((m : ℕ) (v : W) → Agrees m (loop m v))
      → let r = after_simulate modules fast false sim last_sim host last_host n loop t in
        Agrees n (simulated sim host ∷ r.0, r.1, r.2)
  unfolding tally
  after_simulate-Agrees sim last_sim host last_host n loop (fine, w) later =
      let ws = wait modules fast false sim last_sim last_host in
      let (calls, reports) = wait_silent false sim last_sim last_host in
      omega (
        arith,
        later (n + 1) w,
        calls,
        reports,
        tally-append is_simulated ws (loop (n + 1) w).0,
        tally-append reported ws (loop (n + 1) w).0,
      )
  after_simulate-Agrees sim last_sim host last_host n loop (failed e, w) later =
      let ws = wait modules fast false sim last_sim last_host in
      let (calls, reports) = wait_silent false sim last_sim last_host in
      omega (
        arith,
        later n w,
        calls,
        reports,
        tally-append is_simulated ws (loop n w).0,
        tally-append reported ws (loop n w).0,
      )
  after_simulate-Agrees sim last_sim host last_host n loop (panicked, w) later = omega arith

  run_hosts-Agrees :
      (dry_run : Bool) (sim : Simulation) (last_sim : Bool) (hosts : List Bytes) (n : ℕ) (w : W)
      → Agrees n (run_hosts modules fast dry_run sim last_sim hosts n w)
  unfolding run_hosts tally
  run_hosts-Agrees true sim last_sim [] n w = refl
  run_hosts-Agrees false sim last_sim [] n w = refl
  run_hosts-Agrees true sim last_sim (host ∷ rest) n w =
      announced-Agrees sim (format_host (modules.host_msg sim w) sim.module_of host) n
        (run_hosts modules fast true sim last_sim rest n w)
        (run_hosts-Agrees true sim last_sim rest n w)
  run_hosts-Agrees false sim last_sim (host ∷ rest) n w =
      let loop = run_hosts modules fast false sim last_sim rest in
      let called =
        after_simulate modules fast false sim last_sim host (is_empty rest) n loop
          (modules.simulate sim host w) in
      announced-Agrees sim (format_host (modules.host_msg sim w) sim.module_of host) n
        (simulated sim host ∷ called.0, called.1, called.2)
        (after_simulate-Agrees sim last_sim host (is_empty rest) n loop
          (modules.simulate sim host w) (λ m v. run_hosts-Agrees false sim last_sim rest m v))

  -- The calls and the reports in a whole list of events agree.
  abbrev IsAccounted : List (Event E) → Type 0
  IsAccounted events = tally reported events ≡ tally is_simulated events

  module _ (dry_run : Bool) where
    after_hosts-IsAccounted :
        (sim : Simulation) (last_sim : Bool) (wanted : ℕ) (t : List Bytes × Option E × W)
        → IsAccounted (after_hosts modules fast dry_run sim last_sim wanted t).0
    unfolding tally
    after_hosts-IsAccounted sim last_sim wanted (hosts, some e, w) = refl
    after_hosts-IsAccounted sim last_sim wanted (hosts, none, w) =
        let (picked, w') = pick_hosts modules fast dry_run wanted hosts w in
        let r = run_hosts modules fast dry_run sim last_sim picked 0 w' in
        let end : List (Event E) =
          printed sim (finished r.1 (length picked) (success_of sim.module_of r.1))
          ∷ cleaned_up sim
          ∷ [] in
        omega (
          arith,
          run_hosts-Agrees dry_run sim last_sim picked 0 w',
          tally-append is_simulated r.0 end,
          tally-append reported r.0 end,
        )

    after_init-IsAccounted :
        (sim : Simulation) (last_sim : Bool) (size : ℕ) (t : Option E × W)
        → IsAccounted (after_init modules fast dry_run sim last_sim size t).0
    unfolding tally
    after_init-IsAccounted sim last_sim size (some e, w) = refl
    after_init-IsAccounted sim last_sim size (none, w) =
        let wanted = if size == 0 then sim.module_of.num_of_hosts else size in
        let (calls, reports) = print_msg_silent E sim sim.module_of.header_msg in
        let later =
          (after_hosts modules fast dry_run sim last_sim wanted
            (modules.hosts sim sim.scope wanted w)).0 in
        let rest : List (Event E) = asked_hosts sim wanted ∷ later in
        omega (
          arith,
          calls,
          reports,
          after_hosts-IsAccounted sim last_sim wanted (modules.hosts sim sim.scope wanted w),
          tally-append is_simulated (print_msg sim sim.module_of.header_msg) rest,
          tally-append reported (print_msg sim sim.module_of.header_msg) rest,
        )

    -- Whatever the modules do and in any mode, the numbers of good hosts in the lines at the end of the
    -- modules, the lines with an error of a host, and the lines about a panic of `Simulate` add up to
    -- the number of calls of `Simulate`.
    pub run-IsAccounted :
        (sims : List Simulation) (size : ℕ) (w : W)
        → IsAccounted (run modules fast dry_run sims size w).0
    unfolding run run_simulation tally
    run-IsAccounted [] size w = refl
    run-IsAccounted (sim ∷ sims) size w =
        let (events, w') = run_simulation modules fast dry_run sim (is_empty sims) size w in
        let later = (run modules fast dry_run sims size w').0 in
        omega (
          arith,
          after_init-IsAccounted sim (is_empty sims) size (modules.init sim w),
          run-IsAccounted sims size w',
          tally-append is_simulated events later,
          tally-append reported events later,
        )
