-- ===== src/Net.antt =====
-- The functions of Go's package net that the program calls on texts: `SplitHostPort`, `JoinHostPort`.
pub mod Join
pub mod Split
use flightsim.Prelude.{ℕ, ◌||◌, [], ◌∷◌, ◌++◌, Option, none, some, ◌==◌, if◌then◌else◌}
use flightsim.Prelude.Bytes.{Bytes, contains_byte}

-- The text cut at the first `c`, which is left out.
unfoldable pub split_first : ℕ → Bytes → Option (Bytes × Bytes)
split_first c [] = none
split_first c (x ∷ xs) =
    if x == c
    then some ([], xs)
    else elim (split_first c xs) [ none ↦ none | some (a, b) ↦ some (x ∷ a, b) ]

-- The text cut at the last `c`, which is left out.
unfoldable pub split_last : ℕ → Bytes → Option (Bytes × Bytes)
split_last c [] = none
split_last c (x ∷ xs) = elim (split_last c xs) [
  | some (a, b) ↦ some (x ∷ a, b)
  | none ↦ if x == c then some ([], xs) else none
]

-- Behind `[host]`: a colon and the port, and no other colon or bracket.
abbrev after_bracket : Bytes → Bytes → Option (Bytes × Bytes)
after_bracket host [] = none
after_bracket host (x ∷ port) =
    if x == b':'
    then if contains_byte b':' port
        || (contains_byte b'[' host || (contains_byte b'[' port || contains_byte b']' port))
      then none
      else some (host, port)
    else none

abbrev bracketed : Option (Bytes × Bytes) → Option (Bytes × Bytes)
bracketed none = none
bracketed (some (host, rest)) = after_bracket host rest

abbrev plain : Bytes → Option (Bytes × Bytes) → Option (Bytes × Bytes)
plain whole none = none
plain whole (some (host, port)) =
    if contains_byte b':' host || (contains_byte b'[' whole || contains_byte b']' whole)
    then none
    else some (host, port)

-- `net.SplitHostPort`: the host and the port, or `none` for its error.
unfoldable pub split_host_port : Bytes → Option (Bytes × Bytes)
split_host_port [] = none
split_host_port (x ∷ xs) =
    if x == b'[' then bracketed (split_first b']' xs) else plain (x ∷ xs) (split_last b':' (x ∷ xs))

-- `net.JoinHostPort`
unfoldable pub join_host_port : Bytes → Bytes → Bytes
join_host_port host port =
    if contains_byte b':' host then b'[' ∷ (host ++ (b']' ∷ b':' ∷ port)) else host ++ (b':' ∷ port)
