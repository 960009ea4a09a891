-- ===== src/Cmd/Select.antt =====
-- The choice of modules by v2/cmd/run/run.go: `allModuleNames`, `selectSimulations`.
pub mod Laws
pub mod Names
pub mod Default
use flightsim.Prelude.{
  ℕ, Bool, true, false, not, ◌&&◌, ◌||◌, List, [], ◌∷◌, ◌++◌, Option, none, some, ◌==◌,
  if◌then◌else◌,
}
use flightsim.Prelude.Bytes.{Bytes, codes, bytes_eq, has_prefix}
use flightsim.Prelude.Sort.{sort_bytes, contains}
use flightsim.Net.{split_first}
use flightsim.Cmd.Modules.{Module}

-- The loop of `allModuleNames`; a name is in the map `seen` exactly if it is among the names so far.
unfoldable pub collect_names : List Module → List Bytes → List Bytes
collect_names [] names = names
collect_names (m ∷ ms) names =
    collect_names ms
      (if not (contains m.name names) && not m.experimental then names ++ (m.name ∷ []) else names)

unfoldable pub all_module_names : List Module → List Bytes
unfolding collect_names sort_bytes
all_module_names table = sort_bytes (collect_names table [])

pub record Simulation : Type 0 where
  pub module_of : Module
  pub scope : Bytes
  pub size : ℕ

-- The name and the scope of an argument: the parts before and behind the first colon.
abbrev pub name_and_scope : Bytes → Option (Bytes × Bytes) → Bytes × Bytes
name_and_scope arg none = (arg, [])
name_and_scope arg (some (name, scope)) = (name, scope)

unfoldable pub parse_name : Bytes → Bytes × Bytes
unfolding split_first
parse_name arg = name_and_scope arg (split_first b':' arg)

-- A module is chosen by its name, or by what stands before a dash in it.
unfoldable pub is_chosen : Bytes → Module → Bool
unfolding bytes_eq has_prefix
is_chosen name m = bytes_eq name m.name || has_prefix m.name (name ++ (b'-' ∷ []))

unfoldable pub choose : Bytes → Bytes → List Module → List Simulation
unfolding is_chosen
choose name scope [] = []
choose name scope (m ∷ ms) =
    if is_chosen name m
    then record { module_of = m; scope = scope; size = 0 } ∷ choose name scope ms
    else choose name scope ms

pub data Selection : Type 0 where
  selected : List Simulation → Selection
  unknown_module : Bytes → Selection

abbrev with_found : Bytes → List Simulation → Selection → Selection
with_found name [] rest = unknown_module name
with_found name (s ∷ ss) (selected rest) = selected ((s ∷ ss) ++ rest)
with_found name (s ∷ ss) (unknown_module n) = unknown_module n

unfoldable pub select_simulations : List Module → List Bytes → Selection
unfolding parse_name choose
select_simulations table [] = selected []
select_simulations table (arg ∷ args) =
    let (name, scope) = parse_name arg in
    with_found name (choose name scope table) (select_simulations table args)

-- `(*Simulation).Name`
unfoldable pub simulation_name : Simulation → Bytes
unfolding bytes_eq
simulation_name s =
    if not (bytes_eq s.scope []) then s.module_of.name ++ (b':' ∷ s.scope) else s.module_of.name
