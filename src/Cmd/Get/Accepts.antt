-- ===== src/Cmd/Get/Accepts.antt =====
-- Which arguments the get command accepts.
use flightsim.Prelude.{
  ℕ, ◌≡◌, ◌↔◌, refl, ap, ◌∙◌, false, List, [], ◌∷◌, ◌++◌, none, ◌⊎◌, inl, inr, length, Bool-cases,
  ◌==◌, ==_iff, if◌then◌else◌, All, arith,
}
use flightsim.Prelude.Bytes.{Bytes, codes, bytes_eq, bytes_eq_iff, contains_byte}
use flightsim.Prelude.Text.{split, join}
use flightsim.Cmd.Get.{fetched, get_element, get_parts, run_get}

-- Parts that hold no separator, and that joined by it are the text.
abbrev pub AreParts : ℕ → Bytes → Bytes × List Bytes → Type 0
AreParts c s (part, parts) =
    (s ≡ join (c ∷ []) (part ∷ parts)) × All (λ t. contains_byte c t ≡ false) (part ∷ parts)

split-AreParts : (c : ℕ) (s : Bytes) → AreParts c s (split c s)
unfolding split join contains_byte
split-AreParts c [] = (refl, (refl, tt))
split-AreParts c (x ∷ s) = extend (split c s).0 (split c s).1 (split-AreParts c s)
  where
    longer :
        (part : Bytes) (parts : List Bytes)
        → x ∷ join (c ∷ []) (part ∷ parts) ≡ join (c ∷ []) ((x ∷ part) ∷ parts)
    longer part [] = refl
    longer part (t ∷ ts) = refl

    extend :
        (part : Bytes) (parts : List Bytes)
        → AreParts c s (part, parts)
        → AreParts c (x ∷ s) (if x == c then ([], part ∷ parts) else (x ∷ part, parts))
    extend part parts (e, (first, rest)) = elim (Bool-cases (x == c)) [
      | inl same ↦
          let eq : x ≡ c = (==_iff x c).0 same in rw same (rw (e, eq) refl, (refl, (first, rest)))
      | inr other ↦ rw other (ap (◌∷◌ x) e ∙ longer part parts, (ground (arith, first), rest))
    ]

split_alone : (c : ℕ) (s : Bytes) → contains_byte c s ≡ false → split c s ≡ (s, [])
unfolding split contains_byte
split_alone c [] h = refl
split_alone c (x ∷ s) h =
    let apart : (x == c) ≡ false = ground arith in rw (apart, split_alone c s (ground arith)) refl

split-append :
    (c : ℕ) (p q : Bytes)
    → contains_byte c p ≡ false
    → contains_byte c q ≡ false
    → split c (p ++ (c ∷ q)) ≡ (p, q ∷ [])
unfolding split contains_byte
split-append c [] q hp hq = rw ((==_iff c c).1 refl, split_alone c q hq) refl
split-append c (x ∷ p) q hp hq =
    let apart : (x == c) ≡ false = ground arith in
    rw (apart, split-append c p q (ground arith) hq) refl

module _ {E : Type 0} (families : Bytes → E ⊎ List Bytes) where
  -- `families:` and a category without a colon, whose families are answered.
  abbrev pub Accepted : Bytes → Type 0
  Accepted to_get =
      (cat : Bytes) × (items : List Bytes) × (to_get ≡ codes "families:" ++ cat)
      × (contains_byte b':' cat ≡ false)
      × (families cat ≡ inr items)

  fetched-none :
      (to_get elem cat : Bytes) (answer : E ⊎ List Bytes)
      → (fetched to_get elem cat answer).1 ≡ none
      → (items : List Bytes) × (answer ≡ inr items)
  fetched-none to_get elem cat (inl e) h = absurd (cc h)
  fetched-none to_get elem cat (inr items) h = (items, refl)

  get_element-none :
      (to_get elem cat : Bytes)
      → (get_element families to_get elem cat).1 ≡ none
      → (elem ≡ codes "families") × ((items : List Bytes) × (families cat ≡ inr items))
  get_element-none to_get elem cat h = elim (Bool-cases (bytes_eq elem (codes "families"))) [
    | inl same ↦ (
      (bytes_eq_iff elem (codes "families")).0 same,
      fetched-none to_get elem cat (families cat) (rw same at h),
    )
    | inr other ↦ absurd (cc (rw other at h))
  ]

  get_parts-none :
      (to_get : Bytes) (r : Bytes × List Bytes)
      → AreParts b':' to_get r
      → (get_parts families to_get r).1 ≡ none
      → Accepted to_get
  unfolding join
  get_parts-none to_get (elem, []) parts h = absurd (cc h)
  get_parts-none to_get (elem, cat ∷ []) (e, (first, (second, _))) h =
      let (same, (items, answer)) = get_element-none to_get elem cat h in
      (cat, items, rw (e, same) refl, second, answer)
  get_parts-none to_get (elem, cat ∷ part ∷ parts) p h = absurd (cc h)

  -- The get command ends without an error exactly if its argument is `families:` with a category
  -- without a colon behind it, whatever that is, and the request for it is answered.
  pub run_get-Accepted : (to_get : Bytes) → ((run_get families to_get).1 ≡ none) ↔ Accepted to_get
  unfolding run_get
  run_get-Accepted to_get = (
    λ h. elim (Bool-cases (length to_get == 0)) [
      | inl empty ↦ absurd (cc (rw empty at h))
      | inr some_byte ↦
          get_parts-none to_get (split b':' to_get) (split-AreParts b':' to_get) (rw some_byte at h)
    ],
    λ (cat, items, e, plain, answer).
        let some_byte : (length (codes "families:" ++ cat) == 0) ≡ false = ground arith in
        let cut = split-append b':' (codes "families") cat (unfold contains_byte in refl) plain in
        rw (e, some_byte, cut, (bytes_eq_iff (codes "families") (codes "families")).1 refl, answer)
          refl,
  )
