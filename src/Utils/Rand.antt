-- ===== src/Utils/Rand.antt =====
-- v2/utils/rand.go. The generator is a parameter: `intn g n` is `rand.Intn(n)`.
pub mod Laws
use flightsim.Prelude.{ℕ, zero, suc, List, [], ◌∷◌, get_or}
use flightsim.Prelude.Bytes.{Bytes, codes}

abbrev pub letter_bytes : Bytes
letter_bytes = codes "abcdefghijklmnopqrstuvwxyzABCDEFGHIJKLMNOPQRSTUVWXYZ"

-- `RandString`
unfoldable pub rand_string : {G : Type 0} → (G → ℕ → ℕ × G) → ℕ → G → Bytes × G
rand_string intn zero g = ([], g)
rand_string intn (suc n) g =
    let (k, g') = intn g 52 in
    let (rest, g'') = rand_string intn n g' in (get_or letter_bytes k 0 ∷ rest, g'')
