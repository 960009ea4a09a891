-- ===== src/Cmd/Get.antt =====
-- v2/cmd/get/get.go. The flag parser is a parameter, by its first argument, and so is the request
-- for the families.
pub mod Columns
pub mod Accepts
use flightsim.Prelude.{
  ℕ, zero, suc, ◌-◌, Bool, true, false, List, [], ◌∷◌, ◌++◌, Option, none, some, ◌⊎◌, inl, inr,
  length, take, drop, map, ltb, ◌==◌, if◌then◌else◌,
}
use flightsim.Prelude.Bytes.{Bytes, codes, bytes_eq, itoa}
use flightsim.Prelude.Text.{trim_right, split, join}

-- `supportedElements` and `supportedCategories`: each map has one key.
abbrev pub supported_elements : List Bytes
supported_elements = codes "families" ∷ []

abbrev pub supported_categories : List Bytes
supported_categories = codes "c2" ∷ []

-- `computeFormatStr`, where `verbs cols` stands behind the line feed.
abbrev pub verbs : ℕ → Bytes
verbs zero = []
verbs (suc cols) = codes "%v" ++ (9 ∷ verbs cols)

unfoldable pub compute_format_str : ℕ → Bytes
compute_format_str cols = 10 ∷ verbs cols

-- A call of `Fprintf`: the format and the elements.
abbrev pub Row : Type 0
Row = Bytes × List Bytes

abbrev pub with_row : Row → Option (List Row) → Option (List Row)
with_row row none = none
with_row row (some rows) = some (row ∷ rows)

-- The loop of `printCol`, with the elements that are left; `none` if the rounds given end before it.
unfoldable pub print_rows : ℕ → List Bytes → ℕ → Option (List Row)
print_rows zero [] cols = some []
print_rows zero (x ∷ left) cols = none
print_rows (suc fuel) [] cols = some []
print_rows (suc fuel) (x ∷ left) cols =
    let n = if ltb (length (x ∷ left)) cols then length (x ∷ left) else cols in
    with_row (compute_format_str n, take n (x ∷ left)) (print_rows fuel (drop n (x ∷ left)) n)

-- `printCol`, in as many rounds as there are elements.
unfoldable pub print_col : List Bytes → ℕ → Option (List Row)
print_col elements cols = print_rows (length elements) elements cols

pub data GetError (E : Type 0) : Type 0 where
  nothing_to_get : GetError E
  invalid_format : Bytes → GetError E
  unsupported_element : Bytes → Bytes → GetError E
  families_failed : E → GetError E

-- A line of `printMsg`: the tag and the text.
abbrev pub Line : Type 0
Line = Bytes × Bytes

abbrev pub print_line : Bytes → Bytes → List Line
print_line info msg = if bytes_eq msg [] then [] else (info, msg) ∷ []

-- `strings.Trim(s, c)` for one character
unfoldable pub trim_left : ℕ → Bytes → Bytes
trim_left c [] = []
trim_left c (x ∷ s) = if x == c then trim_left c s else x ∷ s

unfoldable pub trim : ℕ → Bytes → Bytes
trim c s = trim_right c (trim_left c s)

abbrev pub fetched :
    {E : Type 0} → Bytes → Bytes → Bytes → E ⊎ List Bytes → List Line × Option (GetError E)
fetched to_get elem cat (inl e) = ([], some (families_failed e))
fetched to_get elem cat (inr families) =
    let elements = map (trim 34) families in
    (
      print_line to_get (join (codes ", ") elements)
          ++ print_line to_get (
              codes "Fetched "
              ++ (itoa (length elements) ++ (codes " " ++ (cat ++ (codes " " ++ elem))))),
      none,
    )

abbrev pub get_element :
    {E : Type 0}
    → (Bytes → E ⊎ List Bytes)
    → Bytes
    → Bytes
    → Bytes
    → List Line × Option (GetError E)
get_element families to_get elem cat =
    let (lines, err) = fetched to_get elem cat (families cat) in
    if bytes_eq elem (codes "families")
    then (print_line to_get (codes "Fetching " ++ (cat ++ (codes " " ++ elem))) ++ lines, err)
    else ([], some (unsupported_element to_get elem))

-- The two parts of the argument.
abbrev pub get_parts :
    {E : Type 0}
    → (Bytes → E ⊎ List Bytes)
    → Bytes
    → Bytes × List Bytes
    → List Line × Option (GetError E)
get_parts families to_get (elem, cat ∷ []) = get_element families to_get elem cat
get_parts families to_get (elem, []) = ([], some (invalid_format to_get))
get_parts families to_get (elem, cat ∷ part ∷ parts) = ([], some (invalid_format to_get))

-- `RunCmd` of the get command, between its welcome and its farewell.
unfoldable pub run_get :
    {E : Type 0} → (Bytes → E ⊎ List Bytes) → Bytes → List Line × Option (GetError E)
run_get families to_get =
    if length to_get == 0
    then ([], some nothing_to_get)
    else get_parts families to_get (split b':' to_get)
