-- ===== src/Simulator/Telegram/Answers.antt =====
-- How `Simulate` of the Telegram bot ends, by the answers to its requests.
use flightsim.Prelude.{
  ℕ, ◌≡◌, ◌⊎◌, inl, inr, refl, ap, false, List, [], ◌∷◌, ◌++◌, Option, none, some, All, Bool-cases,
  ◌==◌, ==_iff, if◌then◌else◌,
}
use flightsim.Prelude.Bytes.{Bytes, codes, bytes_eq}
use flightsim.Simulator.Telegram.{
  telegram_url, Got, Ended, returned, panicked, after_request, requests, bot_methods,
  telegram_simulate,
}

-- Answered with status 200 and no error.
abbrev pub IsGood : {E : Type 0} → Option ℕ → Option E → Type 0
IsGood status err = (status ≡ some 200) × (err ≡ none)

-- What any other answer leads to.
abbrev pub ending : {E : Type 0} → Option ℕ → Option E → Ended E
ending none err = panicked
ending (some code) err = returned err

abbrev pub Ends : {E : Type 0} → (Bytes → Got E) → Bytes → List Bytes → Ended E → Type 0
Ends get url methods outcome =
    (All (λ m. IsGood ((get (url ++ m)).status_code) ((get (url ++ m)).err)) methods
      × (outcome ≡ returned none))
    ⊎ ((front : List Bytes) × (method : Bytes) × (back : List Bytes) × (methods
          ≡ front ++ (method ∷ back))
        × All (λ m. IsGood ((get (url ++ m)).status_code) ((get (url ++ m)).err)) front
        × ¬ IsGood ((get (url ++ method)).status_code) ((get (url ++ method)).err)
        × (outcome ≡ ending ((get (url ++ method)).status_code) ((get (url ++ method)).err)))

after_request_cases :
    {E : Type 0}
    → (status : Option ℕ) (err : Option E) (rest : Ended E)
    → (IsGood status err × (after_request status err rest ≡ rest))
      ⊎ (¬ IsGood status err × (after_request status err rest ≡ ending status err))
after_request_cases none err rest = inr ((λ h. cc (h.0)), refl)
after_request_cases (some code) (some e) rest = inr ((λ h. cc (h.1)), refl)
after_request_cases (some code) none rest = elim (Bool-cases (code == 200)) [
  | inl same ↦ inl ((ap some ((==_iff code 200).0 same), refl), rw same refl)
  | inr other ↦ inr ((λ h. bad other (h.0)), rw other refl)
]
  where
    bad : {n : ℕ} → (n == 200) ≡ false → some n ≡ some 200 → ⊥
    bad {n = n} h e = let same : n ≡ 200 = cc e in cc (h, (==_iff n 200).1 same)

requests-Ends :
    {E : Type 0}
    → (get : Bytes → Got E) (url : Bytes) (methods : List Bytes)
    → Ends get url methods (requests get url methods)
unfolding requests
requests-Ends get url [] = inl (tt, refl)
requests-Ends get url (method ∷ methods) =
    let got = get (url ++ method) in
    let rest = requests get url methods in
    elim (after_request_cases got.status_code got.err rest) [
      | inr (bad, e) ↦ inr ([], method, methods, refl, tt, bad, e)
      | inl (good, e) ↦ elim (requests-Ends get url methods) [
        | inl (all, fine) ↦ inl ((good, all), rw e fine)
        | inr (front, m, back, parts, all, bad, stop) ↦
            inr (method ∷ front, m, back, ap (◌∷◌ method) parts, (good, all), bad, rw e stop)
      ]
    ]

-- The simulation asks for the three methods in order. If all are answered with status 200 and no
-- error it returns no error; else it ends with the first that is not: it returns that request's
-- error, none for a bare status, and it panics if there was no response.
pub telegram_simulate-Ends :
    {E : Type 0}
    → (get : Bytes → Got E) (random token : Bytes)
    → let used = if bytes_eq token [] then random else token in
      Ends get
        (telegram_url ++ (used ++ codes "/"))
        bot_methods
        (telegram_simulate get random token)
unfolding telegram_simulate
telegram_simulate-Ends get random token = requests-Ends get _ bot_methods
