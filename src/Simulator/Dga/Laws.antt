-- ===== src/Simulator/Dga/Laws.antt =====
-- The form of the names that v2/simulator/dga.go makes.
use flightsim.Prelude.{
  get_or-In, All-get_or, ℕ, zero, suc, ◌+◌, ◌<◌, ◌≤◌, ◌≡◌, refl, ap, List, [], ◌∷◌, ◌++◌, length,
  take, drop, get_or, map, In, All, All-take, All-drop, length-take, length-drop, arith, length-map,
}
use flightsim.Prelude.Bytes.{Bytes, itoa}
use flightsim.Prelude.Text.{to_lower}
use flightsim.Utils.Rand.{rand_string}
use flightsim.Utils.Rand.Laws.{IsIntn, IsLower, IsLower-rand_string}
use flightsim.Simulator.Dga.{dga_tlds, dga_host, dga_loop, dga_hosts}

-- A label of lower-case letters with one digit among them, and one of the top-level domains.
abbrev pub IsDgaName : ℕ → Bytes → Type 0
IsDgaName len host =
    (front : Bytes) × (digit : ℕ) × (back : Bytes) × (tld : Bytes) × (host
      ≡ (front ++ (digit ∷ back)) ++ tld)
    × (length front + 1 + length back ≡ len)
    × All IsLower front
    × All IsLower back
    × ((b'0' ≤ digit) × (digit ≤ b'9'))
    × In tld dga_tlds

itoa_digit : (n : ℕ) → n < 10 → itoa n ≡ (48 + n) ∷ []
unfolding itoa
itoa_digit n h = ground arith

module _ {G : Type 0} (intn : G → ℕ → ℕ × G) (fair : IsIntn intn) (tld_idx : List ℕ)
    (small : All (λ k. k < 7) tld_idx) where
  dga_host-IsDgaName : (len : ℕ) (g : G) → 0 < len → IsDgaName len (dga_host intn tld_idx len g).0
  unfolding dga_host
  dga_host-IsDgaName len g pos =
      let (random, g1) = rand_string intn len g in
      let (whole, lower) = IsLower-rand_string intn fair len g in
      let (at, g2) = intn g1 len in
      let at_lt : at < len = fair g1 len pos in
      let (digit, g3) = intn g2 10 in
      let digit_lt : digit < 10 = fair g2 10 (omega arith) in
      let (k, g4) = intn g3 (length tld_idx) in
      let label = map to_lower random in
      (
        take at label,
        48 + digit,
        drop (at + 1) label,
        get_or dga_tlds (get_or tld_idx k 0) [],
        rw (itoa_digit digit digit_lt) refl,
        omega (
          arith,
          length-take at label,
          length-drop (at + 1) label,
          length-map random to_lower,
          whole,
        ),
        All-take IsLower at label lower,
        All-drop IsLower (at + 1) label lower,
        omega arith,
        get_or-In dga_tlds (get_or tld_idx k 0) []
            (All-get_or (λ n. n < 7) tld_idx k 0 (omega arith) small),
      )

  dga_loop-IsDgaName :
      (size len : ℕ) (g : G)
      → 0 < len
      → (length (dga_loop intn size tld_idx len g).0 ≡ size)
        × All (IsDgaName len) (dga_loop intn size tld_idx len g).0
  unfolding dga_loop
  dga_loop-IsDgaName zero len g pos = (refl, tt)
  dga_loop-IsDgaName (suc size) len g pos =
      let (count, all) = dga_loop-IsDgaName size len (dga_host intn tld_idx len g).1 pos in
      (ap suc count, (dga_host-IsDgaName len g pos, all))

-- `Hosts` of the DGA simulator gives as many names as asked for. All have labels of one length, from
-- 7 to 10, of lower-case letters but for one digit, under one of the seven top-level domains, if the
-- generator keeps its bounds and the order of the domains holds their numbers.
pub dga_hosts-IsDgaName :
    {G : Type 0} (intn : G → ℕ → ℕ × G) (order : List ℕ) (size : ℕ) (g : G)
    → IsIntn intn
    → All (λ k. k < 7) order
    → (length (dga_hosts intn order size g).0 ≡ size)
      × ((len : ℕ) × (7 ≤ len) × (len ≤ 10) × All (IsDgaName len) (dga_hosts intn order size g).0)
unfolding dga_hosts
dga_hosts-IsDgaName intn order size g fair small =
    let (extra, g') = intn g 4 in
    let bound : extra < 4 = fair g 4 (omega arith) in
    let (count, all) =
      dga_loop-IsDgaName intn fair (take 3 order) (All-take (λ k. k < 7) 3 order small) size
        (7 + extra) g' (omega arith) in
    (count, (7 + extra, omega arith, omega arith, all))
