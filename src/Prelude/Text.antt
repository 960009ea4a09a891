-- ===== src/Prelude/Text.antt =====
-- More of package `strings` of Go's standard library: search, trimming, lower case, splitting and
-- joining.
use Prim.Native.Nat.{ℕ, suc, ◌+◌}
use mathlib.Core.Path.{◌≡◌, refl, sym, ap, ◌∙◌}
use mathlib.Core.Logic.{◌≢◌, ◌↔◌, inl, inr}
use mathlib.Core.Bool.{Bool, true, ◌||◌, ◌&&◌}
use mathlib.Core.List.{List, [], ◌∷◌, ◌++◌}
use native.Mathlib.Omega.{arith}
use flightsim.Prelude.Tests.{if◌then◌else◌, Bool-cases, leb, ◌==◌, ==_iff}
use flightsim.Prelude.Lists.{replicate, length, length-append}
use flightsim.Prelude.Bytes.{Bytes, has_prefix, has_prefix-append, has_prefix-split}

-- `strings.Contains(s, sub)`
unfoldable pub contains_text : Bytes → Bytes → Bool
contains_text [] sub = has_prefix [] sub
contains_text (x ∷ s) sub = has_prefix (x ∷ s) sub || contains_text s sub

abbrev pub HasPart : Bytes → Bytes → Type 0
HasPart s sub = (front : Bytes) × (back : Bytes) × (s ≡ front ++ (sub ++ back))

pub contains_text-HasPart : (s sub : Bytes) → contains_text s sub ≡ true → HasPart s sub
unfolding contains_text
contains_text-HasPart [] sub h = let (back, e) = has_prefix-split [] sub h in ([], back, e)
contains_text-HasPart (x ∷ s) sub h = elim (Bool-cases (has_prefix (x ∷ s) sub)) [
  | inl here ↦ let (back, e) = has_prefix-split (x ∷ s) sub here in ([], back, e)
  | inr later ↦
      let (front, back, e) = contains_text-HasPart s sub (rw later at h) in
      (x ∷ front, back, ap (◌∷◌ x) e)
]

prefix-contains_text : (s sub : Bytes) → has_prefix s sub ≡ true → contains_text s sub ≡ true
unfolding contains_text
prefix-contains_text [] sub h = h
prefix-contains_text (x ∷ s) sub h = rw h refl

HasPart-contains_text : (front sub back : Bytes) → contains_text (front ++ (sub ++ back)) sub ≡ true
unfolding contains_text
HasPart-contains_text [] sub back =
    prefix-contains_text (sub ++ back) sub (has_prefix-append sub back)
HasPart-contains_text (x ∷ front) sub back =
    elim (Bool-cases (has_prefix (x ∷ (front ++ (sub ++ back))) sub)) [
      | inl e ↦ rw e refl
      | inr e ↦ rw e (HasPart-contains_text front sub back)
    ]

pub contains_text_iff : (s sub : Bytes) → (contains_text s sub ≡ true) ↔ HasPart s sub
contains_text_iff s sub =
    (contains_text-HasPart s sub, λ h. rw h.2 (HasPart-contains_text h.0 sub h.1))

-- `strings.TrimRight(s, c)` for one character
abbrev pub kept : ℕ → ℕ → Bytes → Bytes
kept c x [] = if x == c then [] else x ∷ []
kept c x (y ∷ t) = x ∷ y ∷ t

unfoldable pub trim_right : ℕ → Bytes → Bytes
trim_right c [] = []
trim_right c (x ∷ s) = kept c x (trim_right c s)

-- What is cut off is all `c`.
pub trim_right_split : (c : ℕ) (s : Bytes) → (n : ℕ) × (s ≡ trim_right c s ++ replicate n c)
unfolding trim_right
trim_right_split c [] = (0, refl)
trim_right_split c (x ∷ s) = extend x (trim_right c s) (trim_right_split c s)
  where
    extend :
        (x : ℕ) (t : Bytes)
        → ((n : ℕ) × (s ≡ t ++ replicate n c))
        → (n : ℕ) × (x ∷ s ≡ kept c x t ++ replicate n c)
    extend x [] (n, e) = elim (Bool-cases (x == c)) [
      | inl same ↦ let eq : x ≡ c = (==_iff x c).0 same in (suc n, rw (same, e, eq) refl)
      | inr other ↦ (n, rw (other, e) refl)
    ]
    extend x (y ∷ t) (n, e) = (n, ap (◌∷◌ x) e)

-- Trimming a text with one more `c` behind it, and trimming again.
pub trim_right-append : (c : ℕ) (s : Bytes) → trim_right c (s ++ (c ∷ [])) ≡ trim_right c s
unfolding trim_right
trim_right-append c [] = rw ((==_iff c c).1 refl) refl
trim_right-append c (x ∷ s) = rw (trim_right-append c s) refl

pub trim_right_idem : (c : ℕ) (s : Bytes) → trim_right c (trim_right c s) ≡ trim_right c s
unfolding trim_right
trim_right_idem c [] = refl
trim_right_idem c (x ∷ s) = again x (trim_right c s) (trim_right_idem c s)
  where
    again : (x : ℕ) (t : Bytes) → trim_right c t ≡ t → trim_right c (kept c x t) ≡ kept c x t
    again x [] e = elim (Bool-cases (x == c)) [
      | inl same ↦ rw same refl
      | inr other ↦ rw (other, other) refl
    ]
    again x (y ∷ t) e = rw e refl

-- What is left does not end in `c`.
pub trim_right_last : (c : ℕ) (s front : Bytes) → trim_right c s ≢ front ++ (c ∷ [])
trim_right_last c s front h =
    let (n, e) = trim_right_split c front in
    let same : front ++ (c ∷ []) ≡ trim_right c front =
      sym h ∙ sym (trim_right_idem c s) ∙ ap (trim_right c) h ∙ trim_right-append c front in
    omega (
      arith,
      ap length same,
      ap length e,
      length-append front (c ∷ []),
      length-append (trim_right c front) (replicate n c),
    )

-- `strings.ToLower` of an ASCII character
unfoldable pub to_lower : ℕ → ℕ
to_lower c = if leb b'A' c && leb c b'Z' then c + 32 else c

-- `strings.Join`
unfoldable pub join : Bytes → List Bytes → Bytes
join sep [] = []
join sep (s ∷ []) = s
join sep (s ∷ t ∷ ss) = s ++ (sep ++ join sep (t ∷ ss))

-- `strings.Split(s, c)` for one character: the part in front of the first `c`, and the others.
unfoldable pub split : ℕ → Bytes → Bytes × List Bytes
split c [] = ([], [])
split c (x ∷ s) =
    let (part, parts) = split c s in if x == c then ([], part ∷ parts) else (x ∷ part, parts)
