-- ===== src/Simulator/Lookups/Names.antt =====
-- Which names the DNS tunnel and the OAST simulator ask for, and when they stop.
use flightsim.Prelude.{
  ℕ, suc, ◌+◌, ◌≡◌, ◌⊎◌, inl, inr, refl, ap, ◌∙◌, List, [], ◌∷◌, ◌++◌, Option, none, some, length,
  map, All, Option-cases, length-map, arith,
}
use flightsim.Prelude.Bytes.{Bytes}
use flightsim.Prelude.Text.{to_lower}
use flightsim.Utils.Net.{fqdn}
use flightsim.Utils.Rand.{rand_string}
use flightsim.Utils.Rand.Laws.{IsIntn, IsLower, IsLower-rand_string}
use flightsim.Simulator.Connect.{
  GoError, unless_soft, Action, dialled, looked_up, wrote, closed, set_deadline, read, waited,
}
use flightsim.Simulator.Connect.Laws.{IsSoft, unless_soft_lem, unless_soft-none}
use flightsim.Simulator.Lookups.{soft_texts, random_name, oast_loop, tunnel_loop, tunnel_simulate}

-- The names looked up, in order.
unfoldable pub names : List Action → List Bytes
names [] = []
names (looked_up a ∷ rest) = a ∷ names rest
names (dialled _ ∷ rest) = names rest
names (wrote _ ∷ rest) = names rest
names (closed ∷ rest) = names rest
names (set_deadline ∷ rest) = names rest
names (read ∷ rest) = names rest
names (waited ∷ rest) = names rest

-- A label of `n` lower-case letters under the domain.
abbrev pub IsRandomName : ℕ → Bytes → Bytes → Type 0
IsRandomName n domain name =
    (label : Bytes) × (name ≡ label ++ (b'.' ∷ domain)) × (length label ≡ n) × All IsLower label

-- No error, or a soft one.
abbrev pub IsIgnored : Option GoError → Type 0
IsIgnored answer = (e : GoError) → answer ≡ some e → IsSoft e soft_texts

-- Random names only; one for each answer if all answers are ignored, with no error, and else up to
-- the first answer that is not, whose error is reported.
abbrev pub Resolves : ℕ → Bytes → List (Option GoError) → List Action × Option GoError → Type 0
Resolves n domain answers (actions, err) =
    All (IsRandomName n domain) (names actions)
    × (((err ≡ none) × (length (names actions) ≡ length answers) × All IsIgnored answers)
        ⊎ ((front : List (Option GoError)) × (e : GoError) × (back : List (Option GoError))
            × (answers ≡ front ++ (some e ∷ back))
            × (err ≡ some e)
            × ¬ IsSoft e soft_texts
            × (length (names actions) ≡ length front + 1)
            × All IsIgnored front))

module _ (n : ℕ) (domain : Bytes) (answer : Option GoError) (answers : List (Option GoError))
    (name : Bytes) (random : IsRandomName n domain name) where
  Resolves-ignored :
      (actions rest : List Action) (err : Option GoError)
      → unless_soft answer soft_texts ≡ none
      → names actions ≡ name ∷ names rest
      → Resolves n domain answers (rest, err)
      → Resolves n domain (answer ∷ answers) (actions, err)
  Resolves-ignored actions rest err soft e (all, inl (fine, count, ignored)) = (
    rw e (random, all),
    inl (
      fine,
      rw e (ap suc count),
      ((λ x h. unless_soft-none answer soft_texts x soft h), ignored),
    ),
  )
  Resolves-ignored actions rest err soft e
        (all, inr (front, x, back, parts, failed, hard, count, ignored)) =
      (
        rw e (random, all),
        inr (
          answer ∷ front,
          x,
          back,
          ap (◌∷◌ answer) parts,
          failed,
          hard,
          rw e (omega (arith, count)),
          ((λ y h. unless_soft-none answer soft_texts y soft h), ignored),
        ),
      )

  Resolves-reported :
      (actions : List Action) (x : GoError)
      → unless_soft answer soft_texts ≡ some x
      → names actions ≡ name ∷ []
      → Resolves n domain (answer ∷ answers) (actions, some x)
  Resolves-reported actions x hard e =
      let (same, not_soft) = (unless_soft_lem answer soft_texts x).0 hard in
      (rw e (random, tt), inr ([], x, answers, rw same refl, refl, not_soft, rw e refl, tt))

module _ {G : Type 0} (intn : G → ℕ → ℕ × G) (fair : IsIntn intn) where
  random_name-IsRandomName :
      (n : ℕ) (domain : Bytes) (g : G) → IsRandomName n domain (random_name intn n domain g).0
  unfolding random_name
  random_name-IsRandomName n domain g =
      let (len, lower) = IsLower-rand_string intn fair n g in
      let label = (rand_string intn n g).0 in
      (map to_lower label, refl, length-map label to_lower ∙ len, lower)

  -- The OAST simulator asks for names of 33 random lower-case letters under its host, one for each
  -- round, until the context expires or a lookup gives an error that is not soft. Such an error it
  -- reports, and no other. The generator keeps its bounds.
  pub oast_loop-Resolves :
      (host : Bytes) (answers : List (Option GoError)) (g : G)
      → Resolves 33 host answers (oast_loop intn host answers g)
  unfolding oast_loop names
  oast_loop-Resolves host [] g = (tt, inl (refl, refl, tt))
  oast_loop-Resolves host (answer ∷ answers) g =
      let (wait, g1) = intn g 400 in
      let (name, g2) = random_name intn 33 host g1 in
      let rest = oast_loop intn host answers g2 in
      let random = random_name-IsRandomName 33 host g1 in
      let later = oast_loop-Resolves host answers g2 in
      elim (Option-cases (unless_soft answer soft_texts)) [
        | inl soft ↦ rw soft (
            Resolves-ignored 33 host answer answers name random (waited ∷ looked_up name ∷ rest.0)
              rest.0 rest.1 soft refl later)
        | inr (x, hard) ↦ rw hard (
            Resolves-reported 33 host answer answers name random (waited ∷ looked_up name ∷ []) x
              hard refl)
      ]

  tunnel_loop-Resolves :
      (host : Bytes) (answers : List (Option GoError)) (g : G)
      → Resolves 30 host answers (tunnel_loop intn host answers g)
  unfolding tunnel_loop names
  tunnel_loop-Resolves host [] g = (tt, inl (refl, refl, tt))
  tunnel_loop-Resolves host (answer ∷ answers) g =
      let (name, g') = random_name intn 30 host g in
      let rest = tunnel_loop intn host answers g' in
      let random = random_name-IsRandomName 30 host g in
      let later = tunnel_loop-Resolves host answers g' in
      elim (Option-cases (unless_soft answer soft_texts)) [
        | inl soft ↦ rw soft (
            Resolves-ignored 30 host answer answers name random (looked_up name ∷ waited ∷ rest.0)
              rest.0 rest.1 soft refl later)
        | inr (x, hard) ↦
            rw hard (
              Resolves-reported 30 host answer answers name random (looked_up name ∷ []) x hard
                refl)
      ]

  -- The DNS tunnel asks for names of 30 random lower-case letters under the absolute name of its
  -- host, one for each round, until the context expires or a lookup gives an error that is not soft.
  -- Such an error it reports, and no other. The generator keeps its bounds.
  pub tunnel_simulate-Resolves :
      (host : Bytes) (answers : List (Option GoError)) (g : G)
      → Resolves 30 (fqdn host) answers (tunnel_simulate intn host answers g)
  unfolding tunnel_simulate
  tunnel_simulate-Resolves host answers g = tunnel_loop-Resolves (fqdn host) answers g
