-- ===== src/Simulator/Dga.antt =====
-- v2/simulator/dga.go. The generator is a parameter: `intn g n` is `rand.Intn(n)`.
pub mod Laws
use flightsim.Simulator.Connect.{BindAddr, BoundSimulator, init_bound}
use flightsim.Prelude.{ℕ, zero, suc, ◌+◌, List, [], ◌∷◌, ◌++◌, length, take, drop, get_or, map}
use flightsim.Prelude.Bytes.{Bytes, codes, itoa}
use flightsim.Prelude.Text.{to_lower}
use flightsim.Utils.Rand.{rand_string}

abbrev pub dga_tlds : List Bytes
dga_tlds =
    codes ".com"
    ∷ codes ".net"
    ∷ codes ".biz"
    ∷ codes ".top"
    ∷ codes ".info"
    ∷ codes ".xyz"
    ∷ codes ".space"
    ∷ []

module _ {G : Type 0} (intn : G → ℕ → ℕ × G) where
  -- One round of the loop: the label with a digit put in, and the top-level domain.
  unfoldable pub dga_host : List ℕ → ℕ → G → Bytes × G
  dga_host tld_idx label_len g =
      let (random, g1) = rand_string intn label_len g in
      let tmp_label = map to_lower random in
      let (replace_at, g2) = intn g1 label_len in
      let (digit, g3) = intn g2 10 in
      let label = take replace_at tmp_label ++ (itoa digit ++ drop (replace_at + 1) tmp_label) in
      let (k, g4) = intn g3 (length tld_idx) in
      (label ++ get_or dga_tlds (get_or tld_idx k 0) [], g4)

  unfoldable pub dga_loop : ℕ → List ℕ → ℕ → G → List Bytes × G
  dga_loop zero tld_idx label_len g = ([], g)
  dga_loop (suc size) tld_idx label_len g =
      let (host, g') = dga_host tld_idx label_len g in
      let (hosts, g'') = dga_loop size tld_idx label_len g' in (host ∷ hosts, g'')

  -- `(*DGA).Hosts`; `order` is the result of `rand.Perm(len(dgaTLDs))`.
  unfoldable pub dga_hosts : List ℕ → ℕ → G → List Bytes × G
  dga_hosts order size g = let (extra, g') = intn g 4 in dga_loop size (take 3 order) (7 + extra) g'

-- `(*DGA).Init`
abbrev pub dga_init : BindAddr → BoundSimulator → BoundSimulator
dga_init bind s = init_bound bind s
