-- ===== src/Cmd/Select/Laws.antt =====
-- Which simulations `selectSimulations` returns.
use flightsim.Prelude.{
  ◌≡◌, ◌↔◌, ◌⊎◌, inl, inr, refl, sym, ap, ◌∙◌, true, List, [], ◌∷◌, ◌++◌, Bool-cases, In, In-append,
  In-append_left, In-append_right, append_assoc,
}
use flightsim.Prelude.Bytes.{
  Bytes, bytes_eq, bytes_eq_iff, has_prefix, has_prefix-append, has_prefix-split,
}
use flightsim.Cmd.Modules.{Module}
use flightsim.Cmd.Select.{
  Simulation, is_chosen, choose, Selection, selected, unknown_module, with_found, parse_name,
  select_simulations,
}

-- The name is the module's, or stands before a dash in it.
abbrev pub Names : Bytes → Module → Type 0
Names name m = (name ≡ m.name) ⊎ ((rest : Bytes) × (m.name ≡ name ++ (b'-' ∷ rest)))

is_chosen-Names : (name : Bytes) (m : Module) → is_chosen name m ≡ true → Names name m
unfolding is_chosen
is_chosen-Names name m h = elim (Bool-cases (bytes_eq name m.name)) [
  | inl same ↦ inl ((bytes_eq_iff name m.name).0 same)
  | inr other ↦
      let (rest, e) = has_prefix-split m.name (name ++ (b'-' ∷ [])) (rw other at h) in
      inr (rest, e ∙ append_assoc name (b'-' ∷ []) rest)
]

Names-is_chosen : (name : Bytes) (m : Module) → Names name m → is_chosen name m ≡ true
unfolding is_chosen
Names-is_chosen name m (inl e) = rw ((bytes_eq_iff name m.name).1 e)
Names-is_chosen name m (inr (rest, e)) =
    let front : has_prefix m.name (name ++ (b'-' ∷ [])) ≡ true =
      rw (e ∙ sym (append_assoc name (b'-' ∷ []) rest))
        (has_prefix-append (name ++ (b'-' ∷ [])) rest) in
    elim (Bool-cases (bytes_eq name m.name)) [
      | inl same ↦ rw same refl
      | inr other ↦ rw (other, front) refl
    ]

abbrev pub simulation_of : Module → Bytes → Simulation
simulation_of m scope = record { module_of = m; scope = scope; size = 0 }

-- What a simulation found for a name and a scope is.
abbrev pub IsChoice : Bytes → Bytes → List Module → Simulation → Type 0
IsChoice name scope table s = (m : Module) × In m table × Names name m × (s ≡ simulation_of m scope)

IsChoice-later :
    (name scope : Bytes) (m : Module) (ms : List Module) (s : Simulation)
    → IsChoice name scope ms s
    → IsChoice name scope (m ∷ ms) s
IsChoice-later name scope m ms s (n, i, called, r) = (n, inr i, called, r)

choose-In :
    (name scope : Bytes) (table : List Module) (s : Simulation)
    → In s (choose name scope table)
    → IsChoice name scope table s
unfolding choose
choose-In name scope [] s h = absurd h
choose-In name scope (m ∷ ms) s h =
    let later : (In s (choose name scope ms) → IsChoice name scope (m ∷ ms) s) =
      λ i. IsChoice-later name scope m ms s (choose-In name scope ms s i) in
    elim (Bool-cases (is_chosen name m)) [
      | inl e ↦ elim (rw e at h) [
        | inl same ↦ (m, inl refl, is_chosen-Names name m e, same)
        | inr i ↦ later i
      ]
      | inr e ↦ later (rw e at h)
    ]

In-choose :
    (name scope : Bytes) (table : List Module) (m : Module)
    → In m table
    → Names name m
    → In (simulation_of m scope) (choose name scope table)
unfolding choose
In-choose name scope [] m i h = absurd i
In-choose name scope (n ∷ ms) m (inl e) h =
    rw (Names-is_chosen name n (rw e at h)) (inl (ap (λ (x : Module). simulation_of x scope) e))
In-choose name scope (n ∷ ms) m (inr i) h = elim (Bool-cases (is_chosen name n)) [
  | inl e ↦ rw e (inr (In-choose name scope ms m i h))
  | inr e ↦ rw e (In-choose name scope ms m i h)
]

-- The name and the scope that an argument gives.
abbrev pub IsAsked : Bytes → List Module → Simulation → Type 0
IsAsked arg table s = IsChoice (parse_name arg).0 (parse_name arg).1 table s

abbrev pub IsAskedBy : List Bytes → List Module → Simulation → Type 0
IsAskedBy args table s = (arg : Bytes) × In arg args × IsAsked arg table s

choose-asked :
    (arg : Bytes) (table : List Module) (s : Simulation)
    → IsAsked arg table s
    → In s (choose (parse_name arg).0 (parse_name arg).1 table)
choose-asked arg table s (m, i, called, e) =
    rw e (In-choose (parse_name arg).0 (parse_name arg).1 table m i called)

-- What `with_found` selects: what the argument found, and what the others did.
with_found-selected :
    (name : Bytes) (found : List Simulation) (rest : Selection) (sims : List Simulation)
    → with_found name found rest ≡ selected sims
    → (others : List Simulation) × (rest ≡ selected others) × (sims ≡ found ++ others)
with_found-selected name [] rest sims h = absurd (cc h)
with_found-selected name (s ∷ ss) (selected others) sims h = (others, refl, cc h)
with_found-selected name (s ∷ ss) (unknown_module n) sims h = absurd (cc h)

asked_of-In :
    (arg : Bytes) (args : List Bytes) (table : List Module) (others : List Simulation)
    (s : Simulation)
    → (In s others → IsAskedBy args table s)
    → In s (choose (parse_name arg).0 (parse_name arg).1 table ++ others)
    → IsAskedBy (arg ∷ args) table s
asked_of-In arg args table others s ih i =
    let (name, scope) = parse_name arg in
    elim (In-append s (choose name scope table) others i) [
      | inl p ↦ (arg, inl refl, choose-In name scope table s p)
      | inr q ↦ let (a, j, r) = ih q in (a, inr j, r)
    ]

In-asked_of :
    (arg : Bytes) (args : List Bytes) (table : List Module) (others : List Simulation)
    (s : Simulation)
    → (IsAskedBy args table s → In s others)
    → IsAskedBy (arg ∷ args) table s
    → In s (choose (parse_name arg).0 (parse_name arg).1 table ++ others)
In-asked_of arg args table others s ih (a, inl e, r) =
    let (name, scope) = parse_name arg in
    let first : IsAsked arg table s = rw (sym e) r in
    In-append_left s (choose name scope table) others (choose-asked arg table s first)
In-asked_of arg args table others s ih (a, inr j, r) =
    In-append_right s (choose (parse_name arg).0 (parse_name arg).1 table) others (ih (a, j, r))

-- When `selectSimulations` succeeds, the simulations it returns are exactly the ones asked for: those
-- of a module in the table that the name of an argument names, with the scope of that argument.
pub select_simulations_selected :
    (table : List Module) (args : List Bytes) (sims : List Simulation)
    → select_simulations table args ≡ selected sims
    → (s : Simulation) → In s sims ↔ IsAskedBy args table s
unfolding select_simulations
select_simulations_selected table [] sims h s =
    let e : [] ≡ sims = cc h in (λ i. absurd (rw (sym e) at i), λ r. absurd r.1)
select_simulations_selected table (arg ∷ args) sims h s =
    let (name, scope) = parse_name arg in
    let (others, e, parts) =
      with_found-selected name (choose name scope table) (select_simulations table args) sims h in
    let ih = select_simulations_selected table args others e s in
    rw parts (asked_of-In arg args table others s ih.0, In-asked_of arg args table others s ih.1)

-- No module in the table has the name, or the name with a dash behind it as the front of its own.
abbrev pub IsUnknown : Bytes → List Module → Type 0
IsUnknown name table = (m : Module) → In m table → ¬ (Names name m)

with_found-unknown :
    (name : Bytes) (found : List Simulation) (rest : Selection) (n : Bytes)
    → with_found name found rest ≡ unknown_module n
    → ((found ≡ []) × (name ≡ n)) ⊎ (rest ≡ unknown_module n)
with_found-unknown name [] rest n h = inl (refl, cc h)
with_found-unknown name (s ∷ ss) (selected others) n h = absurd (cc h)
with_found-unknown name (s ∷ ss) (unknown_module m) n h = inr h

-- An argument whose name is of no module in the table.
abbrev pub HasUnknown : List Bytes → List Module → Type 0
HasUnknown args table = (arg : Bytes) × In arg args × IsUnknown (parse_name arg).0 table

unknown-choose :
    (name scope : Bytes) (table : List Module) → IsUnknown name table → choose name scope table ≡ []
unfolding choose
unknown-choose name scope [] unk = refl
unknown-choose name scope (m ∷ ms) unk = elim (Bool-cases (is_chosen name m)) [
  | inl e ↦ absurd (unk m (inl refl) (is_chosen-Names name m e))
  | inr e ↦ rw e (unknown-choose name scope ms (λ n i. unk n (inr i)))
]

choose-IsUnknown :
    (name scope : Bytes) (table : List Module) → choose name scope table ≡ [] → IsUnknown name table
choose-IsUnknown name scope table e m i called =
    let found = In-choose name scope table m i called in rw e at found

with_found-fails :
    (name : Bytes) (found : List Simulation) (rest : Selection)
    → ((n : Bytes) × (rest ≡ unknown_module n))
    → (n : Bytes) × (with_found name found rest ≡ unknown_module n)
with_found-fails name [] rest r = (name, refl)
with_found-fails name (s ∷ ss) rest (n, e) = (n, rw e refl)

select-unknown :
    (table : List Module) (args : List Bytes) (name : Bytes)
    → select_simulations table args ≡ unknown_module name
    → HasUnknown args table
unfolding select_simulations
select-unknown table [] name h = absurd (cc h)
select-unknown table (arg ∷ args) name h =
    let (n, scope) = parse_name arg in
    elim (with_found-unknown n (choose n scope table) (select_simulations table args) name h) [
      | inl (none_found, e) ↦ (arg, inl refl, choose-IsUnknown n scope table none_found)
      | inr later ↦ let (a, i, r) = select-unknown table args name later in (a, inr i, r)
    ]

unknown-select :
    (table : List Module) (args : List Bytes)
    → HasUnknown args table
    → (name : Bytes) × (select_simulations table args ≡ unknown_module name)
unfolding select_simulations
unknown-select table [] r = absurd r.1
unknown-select table (arg ∷ args) (a, inl e, unk) =
    let (n, scope) = parse_name arg in
    let gone : choose n scope table ≡ [] = unknown-choose n scope table (rw (sym e) unk) in
    (n, rw gone refl)
unknown-select table (arg ∷ args) (a, inr i, unk) =
    let (n, scope) = parse_name arg in
    with_found-fails n (choose n scope table) (select_simulations table args)
      (unknown-select table args (a, i, unk))

-- `selectSimulations` fails exactly when the name of some argument is of no module in the table.
pub select_simulations_unknown :
    (table : List Module) (args : List Bytes)
    → ((name : Bytes) × (select_simulations table args ≡ unknown_module name))
      ↔ HasUnknown args table
select_simulations_unknown table args =
    (λ r. select-unknown table args r.0 r.1, unknown-select table args)
