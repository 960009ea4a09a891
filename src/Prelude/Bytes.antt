-- ===== src/Prelude/Bytes.antt =====
-- Go strings and byte slices as lists of bytes: equality, search, prefixes, as package `strings` of
-- Go's standard library has them.
use flightsim.Prelude.Tests.{ltb}
use flightsim.Prelude.Lists.{All}
use Prim.Native.Char.{code}
use Prim.Native.Nat.{ℕ, ◌<◌, compare, Ordering}
use Prim.Native.String.{String}
use mathlib.Core.Path.{◌≡◌, refl}
use mathlib.Core.Logic.{◌↔◌}
use mathlib.Core.Bool.{Bool, true, false, ◌&&◌, ◌||◌}
use mathlib.Core.List.{List, [], ◌∷◌, ◌++◌}
use native.Mathlib.Omega.{arith}
use Prim.Native.Nat.{◌/◌, ◌%◌, ◌+◌, zero, suc}

abbrev pub Bytes : Type 0
Bytes = List ℕ

abbrev pub IsByte : ℕ → Type 0
IsByte b = b < 256

-- The bytes of an ASCII text.
abbrev pub codes : String → Bytes
codes String.[] = []
codes (String.◌∷◌ c s) = code c ∷ codes s

-- `a == b` on strings.
unfoldable pub bytes_eq : Bytes → Bytes → Bool
bytes_eq [] [] = true
bytes_eq (x ∷ xs) (y ∷ ys) = elim (compare x y) [ Ordering.eq ↦ true | _ ↦ false ] && bytes_eq xs ys
bytes_eq _ _ = false

pub bytes_eq_iff : (a b : Bytes) → (bytes_eq a b ≡ true) ↔ (a ≡ b)
unfolding bytes_eq
bytes_eq_iff (x ∷ a) (y ∷ b) = ground (arith, bytes_eq_iff a b)
bytes_eq_iff _ _ = ground arith

-- `strings.IndexByte(s, c) >= 0`, and `strings.Contains(s, ":")` for a text of one byte
unfoldable pub contains_byte : ℕ → Bytes → Bool
contains_byte c [] = false
contains_byte c (x ∷ xs) =
    elim (compare x c) [ Ordering.eq ↦ true | _ ↦ false ] || contains_byte c xs

-- `strings.HasPrefix(s, prefix)`
unfoldable pub has_prefix : Bytes → Bytes → Bool
has_prefix s [] = true
has_prefix [] (p ∷ ps) = false
has_prefix (x ∷ xs) (p ∷ ps) =
    elim (compare x p) [ Ordering.eq ↦ true | _ ↦ false ] && has_prefix xs ps

pub has_prefix-append : (p rest : Bytes) → has_prefix (p ++ rest) p ≡ true
unfolding has_prefix
has_prefix-append [] [] = refl
has_prefix-append [] (x ∷ rest) = refl
has_prefix-append (x ∷ p) rest = ground (arith, has_prefix-append p rest)

pub has_prefix-split : (s p : Bytes) → has_prefix s p ≡ true → (rest : Bytes) × (s ≡ p ++ rest)
unfolding has_prefix
has_prefix-split s [] h = (s, refl)
has_prefix-split [] (p ∷ ps) h = cc
has_prefix-split (x ∷ xs) (p ∷ ps) h =
    let (rest, e) = has_prefix-split xs ps (ground arith) in (rest, ground arith)

-- `strconv.Itoa` of a number that is not negative; each round takes a digit, so `n + 1` rounds do.
unfoldable pub itoa_fuel : ℕ → ℕ → Bytes
itoa_fuel zero n = []
itoa_fuel (suc fuel) n =
    let front = itoa_fuel fuel (n / 10) in
    elim (compare n 10) [ Ordering.lt ↦ (48 + n) ∷ [] | _ ↦ front ++ ((48 + n % 10) ∷ []) ]

unfoldable pub itoa : ℕ → Bytes
unfolding itoa_fuel
itoa n = itoa_fuel (n + 1) n

-- The test whether all elements are bytes.
abbrev pub are_bytes : Bytes → Bool
are_bytes [] = true
are_bytes (x ∷ xs) = ltb x 256 && are_bytes xs

pub are_bytes-All : (b : Bytes) → are_bytes b ≡ true → All IsByte b
are_bytes-All [] h = tt
are_bytes-All (x ∷ xs) h = (ground arith, are_bytes-All xs (ground arith))
