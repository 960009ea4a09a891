-- ===== src/Utils/Conn/Sizes.antt =====
-- The parts add up to the whole, they are as many as allowed, and the loop ends.
use flightsim.Prelude.{
  ℕ, zero, suc, ◌+◌, ◌-◌, ◌*◌, ◌/◌, ◌%◌, ◌^◌, ◌<◌, ◌≤◌, ◌≡◌, inl, inr, List, [], ◌∷◌, ◌++◌, Option,
  some, true, false, length, replicate, length-replicate, length-append, ltb, ltb→lt, ltb_false→le,
  Bool-cases, ◌==◌, All, All-append, arith,
}
use flightsim.Utils.Conn.{compute_senders, sizes_loop, compute_sender_sizes}
use native.Mathlib.Decide.{dec_lt}
use native.Mathlib.Nat.{div-add-mod, mod-lt}

unfoldable pub sum : List ℕ → ℕ
sum [] = 0
sum (x ∷ xs) = x + sum xs

sum-append : (xs ys : List ℕ) → sum (xs ++ ys) ≡ sum xs + sum ys
unfolding sum
sum-append [] ys = omega arith
sum-append (x ∷ xs) ys = omega (arith, sum-append xs ys)

sum-replicate : (n a : ℕ) → sum (replicate n a) ≡ n * a
unfolding sum
sum-replicate zero a = omega arith
sum-replicate (suc n) a = omega (arith, sum-replicate n a)

-- A part holds something, and no more than the size `m`.
abbrev pub IsPart : ℕ → ℕ → Type 0
IsPart m x = (0 < x) × (x ≤ m)

All-pos : (m : ℕ) (xs : List ℕ) → All (IsPart m) xs → All (λ x. 0 < x) xs
All-pos m [] h = tt
All-pos m (x ∷ xs) h = (h.0.0, All-pos m xs h.1)

replicate-IsPart : (n m : ℕ) → 0 < m → All (IsPart m) (replicate n m)
replicate-IsPart zero m h = tt
replicate-IsPart (suc n) m h = (omega arith, replicate-IsPart n m h)

sum-compute_senders : (n m : ℕ) → 0 < m → sum (compute_senders n m) ≡ n
unfolding compute_senders sum
sum-compute_senders n m h = grind (
  arith,
  sum-append (replicate (n / m) m) ((n - n / m * m) ∷ []),
  sum-replicate (n / m) m,
  div-add-mod n m,
)

compute_senders-IsPart : (n m : ℕ) → 0 < m → All (IsPart m) (compute_senders n m)
unfolding compute_senders
compute_senders-IsPart n m h =
    let full = replicate-IsPart (n / m) m h in
    elim (Bool-cases (n - n / m * m == 0)) [
      | inl none_left ↦ rw none_left full
      | inr left ↦ rw left (
          All-append (IsPart m) (replicate (n / m) m) _ full
            ((ground arith, grind (arith, div-add-mod n m, mod-lt n h)), tt))
    ]

length-compute_senders : (n m : ℕ) → 0 < m → length (compute_senders n m) ≤ n / m + 1
unfolding compute_senders
length-compute_senders n m h =
    ground (
      arith,
      length-append (replicate (n / m) m) ((n - n / m * m) ∷ []),
      length-replicate (n / m) m,
    )

-- More than one part means that the size is no more than the whole.
le_of_two_parts : (n m : ℕ) → 0 < m → 1 < length (compute_senders n m) → m ≤ n
le_of_two_parts n m h two = grind (arith, length-compute_senders n m h, div-add-mod n m)

-- From round `a` on the loop ends at the first round `j` whose size gives few enough parts.
abbrev pub Finds : Option (List ℕ) → ℕ → ℕ → ℕ → ℕ → Type 0
Finds result max_senders n inc a =
    (j : ℕ) × (a ≤ j)
    × (result ≡ some (compute_senders n ((j + 1) * inc)))
    × (length (compute_senders n ((j + 1) * inc)) ≤ max_senders)
    × ((i : ℕ) → a ≤ i → i < j → max_senders < length (compute_senders n ((i + 1) * inc)))

module _ (max_senders n inc : ℕ) (room : 0 < max_senders) (pos : 0 < inc)
    (fits : n + inc < 2 ^ 64) where
  sizes_loop-here :
      (fuel a : ℕ)
      → ltb max_senders (length (compute_senders n ((a + 1) * inc))) ≡ false
      → Finds (sizes_loop fuel max_senders n inc ((a + 1) * inc)) max_senders n inc a
  unfolding sizes_loop
  sizes_loop-here zero a e =
      (a, omega arith, rw e, ltb_false→le _ _ e, λ i lo hi. absurd (omega arith))
  sizes_loop-here (suc fuel) a e =
      (a, omega arith, rw e, ltb_false→le _ _ e, λ i lo hi. absurd (omega arith))

  sizes_loop-more :
      (fuel a : ℕ)
      → ltb max_senders (length (compute_senders n ((a + 1) * inc))) ≡ true
      → Finds (sizes_loop fuel max_senders n inc ((a + 1 + 1) * inc)) max_senders n inc (a + 1)
      → Finds (sizes_loop (suc fuel) max_senders n inc ((a + 1) * inc)) max_senders n inc a
  unfolding sizes_loop
  sizes_loop-more fuel a many (j, lo, e, few, before) =
      let le : (a + 1) * inc ≤ n =
        le_of_two_parts n ((a + 1) * inc) (grind arith) (omega (arith, ltb→lt _ _ many)) in
      let next : ((a + 1) * inc + inc) % 2 ^ 64 ≡ (a + 1 + 1) * inc = omega arith in
      (
        j,
        omega arith,
        rw (many, next) e,
        few,
        λ i p q. elim (dec_lt a i) [
          | yes later ↦ before i (omega arith) q
          | no now ↦ let same : i ≡ a = omega arith in rw same (ltb→lt _ _ many)
        ],
      )

  sizes_loop_lem :
      (fuel a : ℕ)
      → n < (a + 1) * inc + fuel * inc
      → Finds (sizes_loop fuel max_senders n inc ((a + 1) * inc)) max_senders n inc a
  sizes_loop_lem zero a h =
      elim (Bool-cases (ltb max_senders (length (compute_senders n ((a + 1) * inc))))) [
        | inr few ↦ sizes_loop-here zero a few
        | inl many ↦ absurd (
            omega (
              arith,
              le_of_two_parts n ((a + 1) * inc) (grind arith) (omega (arith, ltb→lt _ _ many)),
            ))
      ]
  sizes_loop_lem (suc fuel) a h =
      elim (Bool-cases (ltb max_senders (length (compute_senders n ((a + 1) * inc))))) [
        | inr few ↦ sizes_loop-here (suc fuel) a few
        | inl many ↦ sizes_loop-more fuel a many (sizes_loop_lem fuel (a + 1) (omega arith))
      ]

  -- `ComputeSenderSizes` ends, and returns the parts for the least multiple of the least size that
  -- gives no more parts than senders, if a sender is allowed, the least size is not 0, and the
  -- whole and the least size together stay below 2 ^ 64.
  pub compute_sender_sizes_least :
      Finds (compute_sender_sizes max_senders n inc) max_senders n inc 0
  unfolding compute_sender_sizes
  compute_sender_sizes_least =
      let one : (0 + 1) * inc ≡ inc = omega arith in
      rw one at (sizes_loop_lem (n / inc) 0 (grind (arith, div-add-mod n inc, mod-lt n pos)))

  -- `ComputeSenderSizes` cuts the whole into parts: they add up to it, none is empty, and there are
  -- at most as many as senders allowed.
  pub compute_sender_sizes_parts :
      (parts : List ℕ)
      → compute_sender_sizes max_senders n inc ≡ some parts
      → (sum parts ≡ n) × (length parts ≤ max_senders) × All (λ x. 0 < x) parts
  compute_sender_sizes_parts parts e =
      let (j, lo, found, few, before) = compute_sender_sizes_least in
      let m = (j + 1) * inc in
      let m_pos : 0 < m = grind arith in
      let same : compute_senders n m ≡ parts = cc in
      rw (← same)
        (sum-compute_senders n m m_pos, few, All-pos m _ (compute_senders-IsPart n m m_pos))
