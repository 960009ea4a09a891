-- ===== src/Cmd/Select/Names.antt =====
-- The names that the program offers, `allModuleNames`.
use flightsim.Prelude.{
  ◌≡◌, ◌↔◌, ◌⊎◌, inl, inr, refl, sym, false, not, ◌&&◌, List, [], ◌∷◌, ◌++◌, if◌then◌else◌,
  Bool-cases, In, In-append, In-append_left, In-append_right,
}
use flightsim.Prelude.Bytes.{Bytes}
use flightsim.Prelude.Sort.{
  contains, contains-In, contains-All, Distinct, Distinct-append, IsSorted, sort_bytes-In,
  sort_bytes-IsSorted, sort_bytes-Distinct,
}
use flightsim.Cmd.Modules.{Module}
use flightsim.Cmd.Select.{collect_names, all_module_names}

-- A module in the table that is not experimental has the name.
abbrev pub IsOffered : List Module → Bytes → Type 0
IsOffered table name = (m : Module) × In m table × (m.experimental ≡ false) × (m.name ≡ name)

IsOffered-later :
    (m : Module) (ms : List Module) (name : Bytes) → IsOffered ms name → IsOffered (m ∷ ms) name
IsOffered-later m ms name (n, i, e, f) = (n, inr i, e, f)

-- The names behind one more module.
unfoldable added : Module → List Bytes → List Bytes
added m names =
    if not (contains m.name names) && not m.experimental then names ++ (m.name ∷ []) else names

added-Distinct : (m : Module) (names : List Bytes) → Distinct names → Distinct (added m names)
unfolding added
added-Distinct m names d = elim (Bool-cases (contains m.name names)) [
  | inl seen ↦ rw seen d
  | inr new ↦ elim (Bool-cases m.experimental) [
    | inl hidden ↦ rw (new, hidden) d
    | inr shown ↦ rw (new, shown) (Distinct-append m.name names (contains-All m.name names new) d)
  ]
]

added-In :
    (m : Module) (names : List Bytes) (z : Bytes)
    → In z (added m names)
    → In z names ⊎ ((m.experimental ≡ false) × (m.name ≡ z))
unfolding added
added-In m names z i = elim (Bool-cases (contains m.name names)) [
  | inl seen ↦ inl (rw seen at i)
  | inr new ↦ elim (Bool-cases m.experimental) [
    | inl hidden ↦ inl (rw (new, hidden) at i)
    | inr shown ↦ elim (In-append z names (m.name ∷ []) (rw (new, shown) at i)) [
      | inl p ↦ inl p
      | inr (inl e) ↦ inr (shown, sym e)
      | inr (inr nothing) ↦ absurd nothing
    ]
  ]
]

In-added_old : (m : Module) (names : List Bytes) (z : Bytes) → In z names → In z (added m names)
unfolding added
In-added_old m names z i = elim (Bool-cases (contains m.name names)) [
  | inl seen ↦ rw seen i
  | inr new ↦ elim (Bool-cases m.experimental) [
    | inl hidden ↦ rw (new, hidden) i
    | inr shown ↦ rw (new, shown) (In-append_left z names (m.name ∷ []) i)
  ]
]

In-added_new :
    (m : Module) (names : List Bytes) → m.experimental ≡ false → In m.name (added m names)
unfolding added
In-added_new m names shown = elim (Bool-cases (contains m.name names)) [
  | inl seen ↦ rw seen (contains-In m.name names seen)
  | inr new ↦ rw (new, shown) (In-append_right m.name names (m.name ∷ []) (inl refl))
]

collect_names-Distinct :
    (ms : List Module) (names : List Bytes) → Distinct names → Distinct (collect_names ms names)
unfolding collect_names added
collect_names-Distinct [] names d = d
collect_names-Distinct (m ∷ ms) names d = collect_names-Distinct ms _ (added-Distinct m names d)

collect_names-In :
    (ms : List Module) (names : List Bytes) (z : Bytes)
    → In z (collect_names ms names)
    → In z names ⊎ IsOffered ms z
unfolding collect_names added
collect_names-In [] names z i = inl i
collect_names-In (m ∷ ms) names z i = elim (collect_names-In ms (added m names) z i) [
  | inr later ↦ inr (IsOffered-later m ms z later)
  | inl now ↦ elim (added-In m names z now) [
    | inl old ↦ inl old
    | inr (shown, e) ↦ inr (m, inl refl, shown, e)
  ]
]

In-collect_names :
    (ms : List Module) (names : List Bytes) (z : Bytes)
    → In z names ⊎ IsOffered ms z
    → In z (collect_names ms names)
unfolding collect_names added
In-collect_names [] names z (inl i) = i
In-collect_names [] names z (inr r) = absurd r.1
In-collect_names (m ∷ ms) names z (inl i) =
    In-collect_names ms (added m names) z (inl (In-added_old m names z i))
In-collect_names (m ∷ ms) names z (inr (n, inr i, shown, f)) =
    In-collect_names ms (added m names) z (inr (n, i, shown, f))
In-collect_names (m ∷ ms) names z (inr (n, inl e, shown, f)) =
    In-collect_names ms (added m names) z
      (inl (rw (sym f, e) (In-added_new m names (rw e at shown))))

-- The names offered are sorted, none stands twice, and they are exactly those of the modules in the
-- table that are not experimental.
pub all_module_names_lem :
    (table : List Module)
    → IsSorted (all_module_names table)
      × Distinct (all_module_names table)
      × ((name : Bytes) → In name (all_module_names table) ↔ IsOffered table name)
unfolding all_module_names
all_module_names_lem table =
    let names = collect_names table [] in
    (
      sort_bytes-IsSorted names,
      sort_bytes-Distinct names (collect_names-Distinct table [] tt),
      λ name.
          let kept = sort_bytes-In name names in
          (
            λ i. elim (collect_names-In table [] name (kept.0 i)) [ inl p ↦ absurd p | inr q ↦ q ],
            λ r. kept.1 (In-collect_names table [] name (inr r)),
          ),
    )
