-- ===== src/Simulator/Scan/Hosts.antt =====
-- The hosts of a port scan: no more than asked for, none twice, all in the networks of RFC 5737.
use flightsim.Prelude.{
  All-get_or, ℕ, zero, suc, ◌+◌, ◌*◌, ◌/◌, ◌%◌, ◌<◌, ◌≤◌, ◌≡◌, ◌⊎◌, inl, inr, refl, Bool, true,
  ◌&&◌, List, [], ◌∷◌, ◌++◌, length, take, get_or, min, ltb, ==_iff, ◌==◌, if◌then◌else◌, All,
  All-append, All-take, ltb→lt, arith, Bool-cases, length-append,
}
use native.Mathlib.Decide.{dec_lt}
use flightsim.Prelude.Bytes.{Bytes, IsByte}
use flightsim.Prelude.Sort.{
  contains, Distinct, contains-All, Distinct-append, sort_bytes-All, sort_bytes-Distinct,
  length-sort_bytes, IsSorted, sort_bytes-IsSorted,
}
use flightsim.Simulator.Scan.{
  no_network, scan_ip_ranges, rand_byte, rand_bytes, rand_ip, contains, collect_hosts, scan_hosts,
}

-- A test of all numbers below a bound.
unfoldable all_below : (ℕ → Bool) → ℕ → Bool
all_below p zero = true
all_below p (suc n) = all_below p n && p n

all_below_lem : (p : ℕ → Bool) (n m : ℕ) → all_below p n ≡ true → m < n → p m ≡ true
unfolding all_below
all_below_lem p zero m h lt = absurd (omega arith)
all_below_lem p (suc n) m h lt = elim (dec_lt m n) [
  | yes below ↦ all_below_lem p n m (ground arith) below
  | no above ↦ let same : m ≡ n = omega arith in rw same (ground arith)
]

abbrev fixed : ℕ → ℕ → Bool
fixed ip random = rand_byte random 255 ip == ip

abbrev free : ℕ → Bool
free random = rand_byte random 0 0 == random

-- The bytes of the networks that the mask fixes.
fixed_tests :
    (ip : ℕ) → all_below (fixed ip) 256 ≡ true → (r : ℕ) → IsByte r → rand_byte r 255 ip ≡ ip
fixed_tests ip h r small =
    (==_iff (rand_byte r 255 ip) ip).0 (all_below_lem (fixed ip) 256 r h small)

free_tests : (r : ℕ) → IsByte r → rand_byte r 0 0 ≡ r
unfolding all_below
free_tests r small = (==_iff (rand_byte r 0 0) r).0 (all_below_lem free 256 r refl small)

-- The address is in a network of RFC 5737.
abbrev pub IsTestNet : Bytes → Type 0
IsTestNet ip =
    (r : ℕ) × ((ip ≡ 192 ∷ 0 ∷ 2 ∷ r ∷ [])
      ⊎ ((ip ≡ 198 ∷ 51 ∷ 100 ∷ r ∷ []) ⊎ (ip ≡ 203 ∷ 0 ∷ 113 ∷ r ∷ [])))

in_network :
    (a b c : ℕ) (random : Bytes)
    → length random ≡ 4
    → All IsByte random
    → all_below (fixed a) 256 ≡ true
    → all_below (fixed b) 256 ≡ true
    → all_below (fixed c) 256 ≡ true
    → (r : ℕ) × (rand_bytes random (255 ∷ 255 ∷ 255 ∷ 0 ∷ []) (a ∷ b ∷ c ∷ 0 ∷ [])
        ≡ a ∷ b ∷ c ∷ r ∷ [])
unfolding rand_bytes
in_network a b c (x ∷ y ∷ z ∷ r ∷ []) len h p q s = (
  r,
  rw
      (
        fixed_tests a p x h.0,
        fixed_tests b q y h.1.0,
        fixed_tests c s z h.1.1.0,
        free_tests r h.1.1.1.0,
      )
      refl,
)
in_network a b c _ len h p q s = absurd (omega arith)

-- The generator gives as many bytes as asked.
abbrev pub IsGenerator : {G : Type 0} → (G → ℕ → Bytes × G) → Type 0
IsGenerator {G = G} read_random =
    (g : G) (n : ℕ) → (length (read_random g n).0 ≡ n) × All IsByte (read_random g n).0

-- No more addresses than asked for, none twice, and each in a network of RFC 5737.
abbrev pub IsTargets : ℕ → List Bytes → Type 0
IsTargets size hosts = (length hosts ≤ size) × Distinct hosts × All IsTestNet hosts

added-IsTargets :
    (size : ℕ) (ip : Bytes) (hosts : List Bytes)
    → length hosts < size
    → IsTestNet ip
    → IsTargets size hosts
    → IsTargets size (if contains ip hosts then hosts else hosts ++ (ip ∷ []))
added-IsTargets size ip hosts room t (few, distinct, test) = elim (Bool-cases (contains ip hosts)) [
  | inl seen ↦ rw seen (few, distinct, test)
  | inr new ↦ rw new (
    omega (arith, length-append hosts (ip ∷ [])),
    Distinct-append ip hosts (contains-All ip hosts new) distinct,
    All-append IsTestNet hosts (ip ∷ []) test (t, tt),
  )
]

module _ {G : Type 0} (read_random : G → ℕ → Bytes × G) (fair : IsGenerator read_random) where
  rand_ip-IsTestNet :
      (k : ℕ) (g : G)
      → k < 3
      → IsTestNet (rand_ip read_random (get_or scan_ip_ranges k no_network) g).0
  unfolding rand_ip scan_ip_ranges all_below
  rand_ip-IsTestNet zero g h =
      let (len, small) = fair g 4 in
      let (r, e) = in_network 192 0 2 (read_random g 4).0 len small refl refl refl in (r, inl e)
  rand_ip-IsTestNet (suc zero) g h =
      let (len, small) = fair g 4 in
      let (r, e) = in_network 198 51 100 (read_random g 4).0 len small refl refl refl in
      (r, inr (inl e))
  rand_ip-IsTestNet (suc (suc zero)) g h =
      let (len, small) = fair g 4 in
      let (r, e) = in_network 203 0 113 (read_random g 4).0 len small refl refl refl in
      (r, inr (inr e))
  rand_ip-IsTestNet (suc (suc (suc k))) g h = absurd (omega arith)

  collect_hosts-IsTargets :
      (rounds size : ℕ) (net_idx : List ℕ) (hosts : List Bytes) (g : G)
      → All (λ k. k < 3) net_idx
      → IsTargets size hosts
      → IsTargets size (collect_hosts read_random rounds size net_idx hosts g)
  unfolding collect_hosts
  collect_hosts-IsTargets zero size net_idx hosts g idx h = h
  collect_hosts-IsTargets (suc rounds) size net_idx hosts g idx h =
      let place = length hosts % length net_idx in
      let network = get_or scan_ip_ranges (get_or net_idx place 0) no_network in
      let (ip, g') = rand_ip read_random network g in
      elim (Bool-cases (ltb (length hosts) size)) [
        | inr full ↦ rw full h
        | inl room ↦ rw room (
            collect_hosts-IsTargets rounds size net_idx _ g' idx (
              added-IsTargets size ip hosts (ltb→lt (length hosts) size room)
                (rand_ip-IsTestNet (get_or net_idx place 0) g
                  (All-get_or (λ n. n < 3) net_idx place 0 (omega arith) idx))
                h))
      ]

  -- `(*PortScan).Hosts` gives at most as many addresses as asked for, no address twice, only
  -- addresses of the networks that RFC 5737 reserves for documentation, and these in order, if the
  -- generator gives as many bytes as asked and the order of the networks holds their numbers.
  pub scan_hosts-IsTargets :
      (order : List ℕ) (size : ℕ) (g : G)
      → All (λ k. k < 3) order
      → IsTargets size (scan_hosts read_random order size g)
        × IsSorted (scan_hosts read_random order size g)
  unfolding scan_hosts
  scan_hosts-IsTargets order size g idx =
      let nets = take (min (size / 20 + 1) (length scan_ip_ranges)) order in
      let found = collect_hosts read_random (2 * size) size nets [] g in
      let (few, distinct, test) =
        collect_hosts-IsTargets (2 * size) size nets [] g (All-take (λ k. k < 3) _ order idx)
          (omega arith, tt, tt) in
      (
        (
          omega (arith, length-sort_bytes found),
          sort_bytes-Distinct found distinct,
          sort_bytes-All IsTestNet found test,
        ),
        sort_bytes-IsSorted found,
      )
