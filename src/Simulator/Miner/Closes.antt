-- ===== src/Simulator/Miner/Closes.antt =====
-- When the miner's connection is closed again.
use flightsim.Prelude.{◌≡◌, ◌↔◌, inl, inr, refl, Bool, true, false, ◌∷◌, Option, none, some, In}
use flightsim.Prelude.Bytes.{Bytes}
use flightsim.Simulator.Connect.{GoError, dialled, closed}
use flightsim.Simulator.Miner.{
  Stratum, after_stratum_write, after_deadline, after_stratum_dial, miner_simulate,
}

after_stratum_write_closes :
    (write_err read_err : Option GoError)
    → In closed (after_stratum_write write_err read_err).1 ↔ (write_err ≡ none)
after_stratum_write_closes (some e) read_err = (λ i. absurd i, λ h. absurd (cc h))
after_stratum_write_closes none read_err = (λ _. refl, λ _. inr (inl refl))

after_deadline_closes :
    (net : Stratum) (err : Option GoError)
    → In closed (after_deadline net err).1 ↔ ((err ≡ none) × (net.write_err ≡ none))
after_deadline_closes net (some e) = (λ i. absurd i, λ h. absurd (cc (h.0)))
after_deadline_closes net none =
    let later = after_stratum_write_closes net.write_err net.read_err in
    (λ i. elim i [ inl e ↦ absurd (cc e) | inr i' ↦ (refl, later.0 i') ], λ h. inr (later.1 (h.1)))

-- The simulation closes the connection exactly if there is one, and neither setting its deadline nor
-- writing to it fails: an error of these two leaves it open.
pub miner_simulate-In :
    (net : Stratum) (dst : Bytes)
    → In closed (miner_simulate net dst).1
      ↔ ((net.connected ≡ true) × (net.deadline_err ≡ none) × (net.write_err ≡ none))
unfolding miner_simulate
miner_simulate-In net dst = by net.connected
  where
    by :
        (up : Bool)
        → In closed (dialled dst ∷ (after_stratum_dial net up).1)
          ↔ ((up ≡ true) × (net.deadline_err ≡ none) × (net.write_err ≡ none))
    by false = (λ i. elim i [ inl e ↦ absurd (cc e) | inr i' ↦ absurd i' ], λ h. absurd (cc (h.0)))
    by true =
        let later = after_deadline_closes net net.deadline_err in
        (
          λ i. elim i [
            | inl e ↦ absurd (cc e)
            | inr (inl e) ↦ absurd (cc e)
            | inr (inr i') ↦ let (a, b) = later.0 i' in (refl, a, b)
          ],
          λ (_, a, b). inr (inr (later.1 (a, b))),
        )
