-- ===== src/Cmd/Run/Trace.antt =====
-- What a run does, counted over its events.
use flightsim.Prelude.{
  ℕ, suc, ◌+◌, ◌≤◌, ◌≡◌, inl, inr, refl, Bool, true, false, not, ◌&&◌, ◌||◌, List, [], ◌∷◌, ◌++◌,
  if◌then◌else◌, length, arith, Bool-cases,
}
use flightsim.Prelude.Bytes.{Bytes, bytes_eq}
use flightsim.Cmd.Select.{Simulation}
use flightsim.Cmd.Run.{
  Ending, fine, failed, panicked, Modules, Message, Event, printed, initialised, simulated, waited,
  cleaned_up, print_msg, is_empty, wait, after_simulate, run_hosts,
}

module _ {E : Type 0} where
  -- How much each event counts for.
  unfoldable pub tally : (Event E → ℕ) → List (Event E) → ℕ
  tally f [] = 0
  tally f (e ∷ es) = f e + tally f es

  pub tally-append :
      (f : Event E → ℕ) (a b : List (Event E)) → tally f (a ++ b) ≡ tally f a + tally f b
  unfolding tally
  tally-append f [] b = omega arith
  tally-append f (e ∷ a) b = omega (arith, tally-append f a b)

  abbrev pub is_simulated : Event E → ℕ
  is_simulated (simulated _ _) = 1
  is_simulated _ = 0

  abbrev pub is_waited : Event E → ℕ
  is_waited (waited _) = 1
  is_waited _ = 0

  abbrev pub is_cleaned_up : Event E → ℕ
  is_cleaned_up (cleaned_up _) = 1
  is_cleaned_up _ = 0

  abbrev pub is_initialised : Event E → ℕ
  is_initialised (initialised _) = 1
  is_initialised _ = 0

  -- Lines printed count for nothing here.
  abbrev pub IgnoresPrint : (Event E → ℕ) → Type 0
  IgnoresPrint f = (sim : Simulation) (m : Message E) → f (printed sim m) ≡ 0

  pub tally-print_msg :
      (f : Event E → ℕ)
      → IgnoresPrint f
      → (sim : Simulation) (b : Bytes) → tally f (print_msg sim b) ≡ 0
  unfolding tally
  tally-print_msg f h sim b = elim (Bool-cases (bytes_eq b [])) [
    | inl e ↦ rw e refl
    | inr e ↦ rw e (omega (arith, h sim (Message.text b)))
  ]

-- The bounds on a loop over `k` hosts that starts from `n` good ones.
abbrev pub Within : {W E : Type 0} → ℕ → ℕ → List (Event E) × ℕ × W → Type 0
Within k n (events, m, w) =
    (tally is_simulated events ≤ k)
    × (m ≤ n + tally is_simulated events)
    × (tally is_waited events ≤ tally is_simulated events)
    × (tally is_cleaned_up events ≡ 0)

module _ {W E : Type 0} (modules : Modules W E) (fast dry_run : Bool) where
  wait-tally :
      (sim : Simulation) (last_sim last_host : Bool)
      → let ws = wait modules fast dry_run sim last_sim last_host in
        (tally is_simulated ws ≡ 0) × (tally is_waited ws ≤ 1) × (tally is_cleaned_up ws ≡ 0)
  unfolding tally
  wait-tally sim last_sim last_host =
      elim (Bool-cases (not (fast || sim.module_of.fast) && (not last_sim || not last_host))) [
        | inl e ↦ rw e (omega arith)
        | inr e ↦ rw e (omega arith)
      ]

  printed-Within :
      (sim : Simulation) (b : Bytes) (k n : ℕ) (r : List (Event E) × ℕ × W)
      → Within k n r
      → Within k n (print_msg sim b ++ r.0, r.1, r.2)
  printed-Within sim b k n (events, m, w) h =
      rw
        (
          tally-append is_simulated (print_msg sim b) events,
          tally-append is_waited (print_msg sim b) events,
          tally-append is_cleaned_up (print_msg sim b) events,
        )
        (omega (
          arith,
          tally-print_msg is_simulated (λ _ _. refl) sim b,
          tally-print_msg is_waited (λ _ _. refl) sim b,
          tally-print_msg is_cleaned_up (λ _ _. refl) sim b,
        ))

  -- A call of `Simulate` and what follows it.
  called-Within :
      (sim : Simulation) (last_sim : Bool) (host : Bytes) (last_host : Bool) (k n : ℕ)
      (loop : ℕ → W → List (Event E) × ℕ × W) (t : Ending E × W)
      → ((n' : ℕ) (w' : W) → Within k n' (loop n' w'))
      → let r = after_simulate modules fast dry_run sim last_sim host last_host n loop t in
        Within (suc k) n (simulated sim host ∷ r.0, r.1, r.2)
  unfolding tally
  called-Within sim last_sim host last_host k n loop (fine, w) h =
      let ws = wait modules fast dry_run sim last_sim last_host in
      let later = (loop (n + 1) w).0 in
      omega (
        arith,
        h (n + 1) w,
        wait-tally sim last_sim last_host,
        tally-append is_simulated ws later,
        tally-append is_waited ws later,
        tally-append is_cleaned_up ws later,
      )
  called-Within sim last_sim host last_host k n loop (failed e, w) h =
      let ws = wait modules fast dry_run sim last_sim last_host in
      let later = (loop n w).0 in
      omega (
        arith,
        h n w,
        wait-tally sim last_sim last_host,
        tally-append is_simulated ws later,
        tally-append is_waited ws later,
        tally-append is_cleaned_up ws later,
      )
  called-Within sim last_sim host last_host k n loop (panicked, w) h = omega arith

  if-Within :
      (b : Bool) (k n : ℕ) (x y : List (Event E) × ℕ × W)
      → Within k n x
      → Within k n y
      → Within k n (if b then x else y)
  if-Within true k n x y h g = h
  if-Within false k n x y h g = g

  pub run_hosts-Within :
      (sim : Simulation) (last_sim : Bool) (hosts : List Bytes) (n : ℕ) (w : W)
      → Within (length hosts) n (run_hosts modules fast dry_run sim last_sim hosts n w)
  unfolding run_hosts
  run_hosts-Within sim last_sim [] n w = unfold tally in omega arith
  run_hosts-Within sim last_sim (host ∷ rest) n w =
      let ih = run_hosts-Within sim last_sim rest in
      let called =
        after_simulate modules fast dry_run sim last_sim host (is_empty rest) n
          (run_hosts modules fast dry_run sim last_sim rest) (modules.simulate sim host w) in
      if-Within dry_run (suc (length rest)) n _ _
        (printed-Within sim _ (suc (length rest)) n
          (run_hosts modules fast dry_run sim last_sim rest n w) (omega (arith, ih n w)))
        (printed-Within sim _ (suc (length rest)) n
          (simulated sim host ∷ called.0, called.1, called.2)
          (called-Within sim last_sim host (is_empty rest) (length rest) n
            (run_hosts modules fast dry_run sim last_sim rest) (modules.simulate sim host w) ih))
