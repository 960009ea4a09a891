-- ===== src/Prelude/Sort.antt =====
-- Lists of byte strings: membership as a test, no element twice, and sorting, as `sort.Strings` does.
use Prim.Native.Nat.{suc, compare, Ordering}
use mathlib.Core.Path.{◌≡◌, refl, sym, ap, ◌∙◌}
use mathlib.Core.Logic.{◌≢◌, ◌↔◌, ◌⊎◌, inl, inr}
use mathlib.Core.Bool.{Bool, true, false, ◌||◌}
use mathlib.Core.List.{List, [], ◌∷◌, ◌++◌}
use native.Mathlib.Omega.{arith}
use flightsim.Prelude.Tests.{if◌then◌else◌, Bool-cases}
use flightsim.Prelude.Lists.{In, All, All-append, length}
use flightsim.Prelude.Bytes.{Bytes, bytes_eq, bytes_eq_iff}

-- `a <= b` on strings
unfoldable pub bytes_le : Bytes → Bytes → Bool
bytes_le [] b = true
bytes_le (x ∷ a) [] = false
bytes_le (x ∷ a) (y ∷ b) =
    let rest = bytes_le a b in
    elim (compare x y) [ Ordering.lt ↦ true | Ordering.eq ↦ rest | Ordering.gt ↦ false ]

unfoldable pub contains : Bytes → List Bytes → Bool
contains a [] = false
contains a (x ∷ xs) = bytes_eq a x || contains a xs

unfoldable pub insert_bytes : Bytes → List Bytes → List Bytes
insert_bytes a [] = a ∷ []
insert_bytes a (x ∷ xs) =
    let rest = x ∷ insert_bytes a xs in if bytes_le a x then a ∷ x ∷ xs else rest

unfoldable pub sort_bytes : List Bytes → List Bytes
sort_bytes [] = []
sort_bytes (x ∷ xs) = insert_bytes x (sort_bytes xs)

-- No element twice.
abbrev pub Distinct : List Bytes → Type 0
Distinct [] = Unit
Distinct (x ∷ xs) = All (λ y. x ≢ y) xs × Distinct xs

pub contains-All : (ip : Bytes) (xs : List Bytes) → contains ip xs ≡ false → All (λ y. ip ≢ y) xs
unfolding contains
contains-All ip [] h = tt
contains-All ip (x ∷ xs) h = elim (Bool-cases (bytes_eq ip x)) [
  | inl same ↦ absurd (cc (rw same at h))
  | inr other ↦ (
    λ e. let same = (bytes_eq_iff ip x).1 e in absurd (cc (rw other at same)),
    contains-All ip xs (rw other at h),
  )
]

-- A new element behind the others.
pub Distinct-append :
    (ip : Bytes) (xs : List Bytes) → All (λ y. ip ≢ y) xs → Distinct xs → Distinct (xs ++ (ip ∷ []))
Distinct-append ip [] h d = (tt, tt)
Distinct-append ip (x ∷ xs) h d =
    (All-append (λ y. x ≢ y) xs (ip ∷ []) d.0 (λ e. h.0 (sym e), tt), Distinct-append ip xs h.1 d.1)

module _ {ℓ} (P : Bytes → Type ℓ) where
  insert_bytes-All : (ip : Bytes) (xs : List Bytes) → P ip → All P xs → All P (insert_bytes ip xs)
  unfolding insert_bytes
  insert_bytes-All ip [] h all = (h, tt)
  insert_bytes-All ip (x ∷ xs) h all = elim (Bool-cases (bytes_le ip x)) [
    | inl e ↦ rw e (h, all)
    | inr e ↦ rw e (all.0, insert_bytes-All ip xs h all.1)
  ]

  pub sort_bytes-All : (xs : List Bytes) → All P xs → All P (sort_bytes xs)
  unfolding sort_bytes
  sort_bytes-All [] all = tt
  sort_bytes-All (x ∷ xs) all = insert_bytes-All x (sort_bytes xs) all.0 (sort_bytes-All xs all.1)

insert_bytes-Distinct :
    (ip : Bytes) (xs : List Bytes)
    → All (λ y. ip ≢ y) xs
    → Distinct xs
    → Distinct (insert_bytes ip xs)
unfolding insert_bytes
insert_bytes-Distinct ip [] h d = (tt, tt)
insert_bytes-Distinct ip (x ∷ xs) h d = elim (Bool-cases (bytes_le ip x)) [
  | inl e ↦ rw e (h, d)
  | inr e ↦ rw e (
    insert_bytes-All (λ y. x ≢ y) ip xs (λ e. h.0 (sym e)) d.0,
    insert_bytes-Distinct ip xs h.1 d.1,
  )
]

pub sort_bytes-Distinct : (xs : List Bytes) → Distinct xs → Distinct (sort_bytes xs)
unfolding sort_bytes
sort_bytes-Distinct [] d = tt
sort_bytes-Distinct (x ∷ xs) d =
    insert_bytes-Distinct x (sort_bytes xs) (sort_bytes-All (λ y. x ≢ y) xs d.0)
      (sort_bytes-Distinct xs d.1)

length-insert_bytes : (ip : Bytes) (xs : List Bytes) → length (insert_bytes ip xs) ≡ suc (length xs)
unfolding insert_bytes
length-insert_bytes ip [] = refl
length-insert_bytes ip (x ∷ xs) = elim (Bool-cases (bytes_le ip x)) [
  | inl e ↦ rw e refl
  | inr e ↦ rw e (ap suc (length-insert_bytes ip xs))
]

pub length-sort_bytes : (xs : List Bytes) → length (sort_bytes xs) ≡ length xs
unfolding sort_bytes
length-sort_bytes [] = refl
length-sort_bytes (x ∷ xs) = length-insert_bytes x (sort_bytes xs) ∙ ap suc (length-sort_bytes xs)

-- Each element is at most the one behind it.
abbrev pub IsSorted : List Bytes → Type 0
IsSorted [] = Unit
IsSorted (x ∷ []) = Unit
IsSorted (x ∷ y ∷ xs) = (bytes_le x y ≡ true) × IsSorted (y ∷ xs)

bytes_le_total : (a b : Bytes) → bytes_le a b ≡ false → bytes_le b a ≡ true
unfolding bytes_le
bytes_le_total [] b h = cc
bytes_le_total (x ∷ a) [] h = refl
bytes_le_total (x ∷ a) (y ∷ b) h = ground (arith, bytes_le_total a b)

insert_bytes-IsSorted : (a : Bytes) (xs : List Bytes) → IsSorted xs → IsSorted (insert_bytes a xs)
unfolding insert_bytes
insert_bytes-IsSorted a [] h = tt
insert_bytes-IsSorted a (x ∷ []) h = elim (Bool-cases (bytes_le a x)) [
  | inl e ↦ rw e (e, tt)
  | inr e ↦ rw e (bytes_le_total a x e, tt)
]
insert_bytes-IsSorted a (x ∷ y ∷ xs) h =
    let later = insert_bytes-IsSorted a (y ∷ xs) h.1 in
    elim (Bool-cases (bytes_le a x)) [
      | inl e ↦ rw e (e, h)
      | inr e ↦ rw e (elim (Bool-cases (bytes_le a y)) [
        | inl f ↦ rw f (bytes_le_total a x e, (f, h.1))
        | inr f ↦ rw f (h.0, rw f at later)
      ])
    ]

pub sort_bytes-IsSorted : (xs : List Bytes) → IsSorted (sort_bytes xs)
unfolding sort_bytes
sort_bytes-IsSorted [] = tt
sort_bytes-IsSorted (x ∷ xs) = insert_bytes-IsSorted x (sort_bytes xs) (sort_bytes-IsSorted xs)

pub contains-In : (a : Bytes) (xs : List Bytes) → contains a xs ≡ true → In a xs
unfolding contains
contains-In a [] h = absurd (cc h)
contains-In a (x ∷ xs) h = elim (Bool-cases (bytes_eq a x)) [
  | inl same ↦ inl ((bytes_eq_iff a x).0 same)
  | inr other ↦ inr (contains-In a xs (rw other at h))
]

insert_bytes-In : (z a : Bytes) (xs : List Bytes) → In z (insert_bytes a xs) → (z ≡ a) ⊎ In z xs
unfolding insert_bytes
insert_bytes-In z a [] h = h
insert_bytes-In z a (x ∷ xs) h = elim (Bool-cases (bytes_le a x)) [
  | inl e ↦ rw e at h
  | inr e ↦ elim (rw e at h) [
    | inl same ↦ inr (inl same)
    | inr later ↦ elim (insert_bytes-In z a xs later) [ inl p ↦ inl p | inr q ↦ inr (inr q) ]
  ]
]

In-insert_bytes : (z a : Bytes) (xs : List Bytes) → (z ≡ a) ⊎ In z xs → In z (insert_bytes a xs)
unfolding insert_bytes
In-insert_bytes z a [] h = h
In-insert_bytes z a (x ∷ xs) (inl e) = elim (Bool-cases (bytes_le a x)) [
  | inl f ↦ rw f (inl e)
  | inr f ↦ rw f (inr (In-insert_bytes z a xs (inl e)))
]
In-insert_bytes z a (x ∷ xs) (inr (inl e)) = elim (Bool-cases (bytes_le a x)) [
  | inl f ↦ rw f (inr (inl e))
  | inr f ↦ rw f (inl e)
]
In-insert_bytes z a (x ∷ xs) (inr (inr i)) = elim (Bool-cases (bytes_le a x)) [
  | inl f ↦ rw f (inr (inr i))
  | inr f ↦ rw f (inr (In-insert_bytes z a xs (inr i)))
]

-- Sorting keeps the elements.
pub sort_bytes-In : (z : Bytes) (xs : List Bytes) → In z (sort_bytes xs) ↔ In z xs
unfolding sort_bytes
sort_bytes-In z [] = (λ i. i, λ i. i)
sort_bytes-In z (x ∷ xs) =
    let ih = sort_bytes-In z xs in
    (
      λ i. elim (insert_bytes-In z x (sort_bytes xs) i) [ inl p ↦ inl p | inr q ↦ inr (ih.0 q) ],
      λ i. In-insert_bytes z x (sort_bytes xs) (elim i [ inl p ↦ inl p | inr q ↦ inr (ih.1 q) ]),
    )
