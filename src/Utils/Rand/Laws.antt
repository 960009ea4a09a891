-- ===== src/Utils/Rand/Laws.antt =====
-- Random strings are of letters.
use flightsim.Prelude.{
  ℕ, zero, suc, ◌<◌, ◌≤◌, ◌≡◌, refl, ap, Bool, true, ◌&&◌, [], ◌∷◌, length, get_or, All, leb, arith,
  map,
}
use flightsim.Prelude.Bytes.{Bytes}
use flightsim.Prelude.Text.{to_lower}
use flightsim.Utils.Rand.{letter_bytes, rand_string}

-- The generator keeps its bound.
abbrev pub IsIntn : {G : Type 0} → (G → ℕ → ℕ × G) → Type 0
IsIntn {G = G} intn = (g : G) (n : ℕ) → 0 < n → (intn g n).0 < n

abbrev pub IsLower : ℕ → Type 0
IsLower c = (b'a' ≤ c) × (c ≤ b'z')

-- A test of all elements.
abbrev all_of : (ℕ → Bool) → Bytes → Bool
all_of p [] = true
all_of p (x ∷ xs) = p x && all_of p xs

all_of-get_or :
    (p : ℕ → Bool) (xs : Bytes) (k : ℕ)
    → all_of p xs ≡ true
    → k < length xs
    → p (get_or xs k 0) ≡ true
all_of-get_or p [] k h lt = absurd (omega arith)
all_of-get_or p (x ∷ xs) zero h lt = ground arith
all_of-get_or p (x ∷ xs) (suc k) h lt = all_of-get_or p xs k (ground arith) (omega arith)

abbrev lowers : ℕ → Bool
lowers c = leb b'a' (to_lower c) && leb (to_lower c) b'z'

lowers-IsLower : (c : ℕ) → lowers c ≡ true → IsLower (to_lower c)
lowers-IsLower c h = ground arith

letter-IsLower : (k : ℕ) → k < 52 → IsLower (to_lower (get_or letter_bytes k 0))
unfolding to_lower
letter-IsLower k h =
    lowers-IsLower (get_or letter_bytes k 0) (all_of-get_or lowers letter_bytes k refl h)

-- A random string in lower case has the length asked for, and only lower-case letters.
pub IsLower-rand_string :
    {G : Type 0} (intn : G → ℕ → ℕ × G) (fair : IsIntn intn) (n : ℕ) (g : G)
    → (length (rand_string intn n g).0 ≡ n) × All IsLower (map to_lower (rand_string intn n g).0)
unfolding rand_string
IsLower-rand_string intn fair zero g = (refl, tt)
IsLower-rand_string intn fair (suc n) g =
    let (k, g') = intn g 52 in
    let (len, all) = IsLower-rand_string intn fair n g' in
    (ap suc len, (letter-IsLower k (fair g 52 (omega arith)), all))
