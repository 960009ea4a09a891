-- ===== src/Cmd/Select/Default.antt =====
-- The names offered are accepted: a run of all of them is never refused.
use flightsim.Prelude.{
  ℕ, ◌≡◌, ◌≢◌, inl, inr, refl, sym, ◌∙◌, false, List, [], ◌∷◌, none, In, All, Bool-cases, ◌==◌,
}
use flightsim.Prelude.Bytes.{Bytes, contains_byte}
use flightsim.Net.{split_first}
use flightsim.Cmd.Modules.{Module}
use flightsim.Cmd.Select.{parse_name, unknown_module, select_simulations, all_module_names}
use flightsim.Cmd.Select.Laws.{select_simulations_unknown}
use flightsim.Cmd.Select.Names.{all_module_names_lem}

split_first_absent : (c : ℕ) (s : Bytes) → contains_byte c s ≡ false → split_first c s ≡ none
unfolding split_first contains_byte
split_first_absent c [] h = refl
split_first_absent c (x ∷ s) h = elim (Bool-cases (x == c)) [
  | inl same ↦ absurd (cc (rw same at h))
  | inr other ↦ rw (other, split_first_absent c s (rw other at h)) refl
]

abbrev pub HasPlainName : Module → Type 0
HasPlainName m = contains_byte b':' m.name ≡ false

plain_of : (table : List Module) (m : Module) → All HasPlainName table → In m table → HasPlainName m
plain_of [] m h i = absurd i
plain_of (n ∷ table) m h (inl e) = rw e h.0
plain_of (n ∷ table) m h (inr i) = plain_of table m h.1 i

parse_name_plain : (name : Bytes) → contains_byte b':' name ≡ false → (parse_name name).0 ≡ name
unfolding parse_name
parse_name_plain name h = rw (split_first_absent b':' name h) refl

-- `selectSimulations` does not fail on the list of all names offered, which a run without arguments
-- uses, for a table in which no module's name holds a colon.
pub all_module_names_selected :
    (table : List Module) (name : Bytes)
    → All HasPlainName table
    → select_simulations table (all_module_names table) ≢ unknown_module name
all_module_names_selected table name plain failed =
    let (arg, i, unknown) =
      (select_simulations_unknown table (all_module_names table)).0 (name, failed) in
    let (m, there, shown, e) = ((all_module_names_lem table).2 arg).0 i in
    let same : (parse_name arg).0 ≡ arg =
      parse_name_plain arg (rw e at (plain_of table m plain there)) in
    unknown m there (inl (same ∙ sym e))
