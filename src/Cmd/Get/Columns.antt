-- ===== src/Cmd/Get/Columns.antt =====
-- The rows of `printCol`.
use flightsim.Prelude.{
  ℕ, zero, suc, ◌<◌, ◌≤◌, ◌≡◌, refl, List, [], ◌∷◌, ◌++◌, Option, some, inl, inr, length, take,
  drop, ltb, take-append-drop, length-take, length-drop, ltb→lt, ltb_false→le, Bool-cases, All,
  arith,
}
use flightsim.Prelude.Bytes.{Bytes}
use flightsim.Cmd.Get.{Row, with_row, compute_format_str, print_rows, print_col}

-- The elements of the rows, in order.
unfoldable pub printed_elements : List Row → List Bytes
printed_elements [] = []
printed_elements ((format, elements) ∷ rows) = elements ++ printed_elements rows

-- A row has from one to `cols` elements, and a format for as many.
abbrev pub IsRow : ℕ → Row → Type 0
IsRow cols (format, elements) =
    (0 < length elements)
    × (length elements ≤ cols)
    × (format ≡ compute_format_str (length elements))

abbrev pub Prints : List Bytes → ℕ → Option (List Row) → Type 0
Prints elements cols result =
    (rows : List Row) × (result ≡ some rows)
    × (printed_elements rows ≡ elements)
    × All (IsRow cols) rows

IsRow-wider : (n m : ℕ) (rows : List Row) → n ≤ m → All (IsRow n) rows → All (IsRow m) rows
IsRow-wider n m [] h all = tt
IsRow-wider n m ((f, es) ∷ rows) h ((a, b, c), all) =
    ((a, omega arith, c), IsRow-wider n m rows h all)

print_rows-step :
    (fuel n cols : ℕ) (left : List Bytes)
    → 0 < n
    → n ≤ cols
    → n ≤ length left
    → Prints (drop n left) n (print_rows fuel (drop n left) n)
    → Prints left cols
        (with_row (compute_format_str n, take n left) (print_rows fuel (drop n left) n))
unfolding printed_elements
print_rows-step fuel n cols left pos le fits (rows, e, all, good) =
    let len : length (take n left) ≡ n = omega (arith, length-take n left) in
    (
      (compute_format_str n, take n left) ∷ rows,
      rw e refl,
      rw all (take-append-drop n left),
      ((omega (arith, len), omega (arith, len), rw len refl), IsRow-wider n cols rows le good),
    )

print_rows-Prints :
    (fuel : ℕ) (left : List Bytes) (cols : ℕ)
    → 0 < cols
    → length left ≤ fuel
    → Prints left cols (print_rows fuel left cols)
unfolding print_rows printed_elements
print_rows-Prints zero [] cols pos enough = ([], refl, refl, tt)
print_rows-Prints zero (x ∷ left) cols pos enough = absurd (omega arith)
print_rows-Prints (suc fuel) [] cols pos enough = ([], refl, refl, tt)
print_rows-Prints (suc fuel) (x ∷ left) cols pos enough =
    let all = x ∷ left in
    let next = λ (n : ℕ) (p : 0 < n).
      print_rows-Prints fuel (drop n all) n p (omega (arith, length-drop n all)) in
    elim (Bool-cases (ltb (length all) cols)) [
      | inl few ↦ rw few (
          print_rows-step fuel (length all) cols all (omega arith)
            (omega (arith, ltb→lt (length all) cols few)) (omega arith)
            (next (length all) (omega arith)))
      | inr many ↦ rw many (
          print_rows-step fuel cols cols all pos (omega arith) (ltb_false→le (length all) cols many)
            (next cols pos))
    ]

-- For a positive number of columns `printCol` ends, after no more rounds than there are elements. It
-- prints all elements, in order, in rows of one to that many elements, with a format for as many.
pub print_col-Prints :
    (elements : List Bytes) (cols : ℕ) → 0 < cols → Prints elements cols (print_col elements cols)
unfolding print_col
print_col-Prints elements cols pos =
    print_rows-Prints (length elements) elements cols pos (omega arith)
