-- ===== src/Tests/Targets.antt =====
-- The theorems on the choice of hosts (v2/simulator/scan.go, v2/wisdom/wisdom.go) and on the names
-- of modules (v2/cmd/run/run.go) at concrete inputs.
use flightsim.Prelude.{true}
use flightsim.Prelude.{
  ℕ, zero, suc, ◌≡◌, ◌↔◌, List, [], ◌∷◌, none, replicate, length-replicate, take, In, All, arith,
}
use flightsim.Prelude.Bytes.{Bytes, IsByte, codes}
use flightsim.Prelude.Sort.{IsSorted, Distinct}
use flightsim.Cmd.Modules.{Module, type_ip, port_scan, tor, dns, ip, entry}
use flightsim.Cmd.Select.{all_module_names}
use flightsim.Cmd.Select.Names.{IsOffered, all_module_names_lem}
use flightsim.Simulator.Scan.{scan_hosts}
use flightsim.Simulator.Scan.Hosts.{IsGenerator, IsTargets, scan_hosts-IsTargets}
use flightsim.Wisdom.{Item, pos, negsuc, Get, answered, unreachable, query, pick_items}
use flightsim.Wisdom.Laws.{usable, pick_items-usable, IsFirstAnswer, query-IsFirstAnswer}

abbrev ones : ℕ → ℕ → Bytes × ℕ
ones g n = (replicate n 1, g)

replicate-IsByte : (n : ℕ) → All IsByte (replicate n 1)
replicate-IsByte zero = tt
replicate-IsByte (suc n) = (omega arith, replicate-IsByte n)

ones-IsGenerator : IsGenerator ones
ones-IsGenerator g n = (length-replicate n 1, replicate-IsByte n)

scan_hosts-IsTargets_example :
    IsTargets 5 (scan_hosts ones (2 ∷ 0 ∷ 1 ∷ []) 5 0)
    × IsSorted (scan_hosts ones (2 ∷ 0 ∷ 1 ∷ []) 5 0)
scan_hosts-IsTargets_example =
    scan_hosts-IsTargets ones ones-IsGenerator (2 ∷ 0 ∷ 1 ∷ []) 5 0
      (omega arith, (omega arith, (omega arith, tt)))

abbrev two_modules : List Module
two_modules =
    entry port_scan (codes "scan") ip
    ∷ record (entry tor (codes "tor") dns) { experimental = true }
    ∷ []

all_module_names_lem_example :
    IsSorted (all_module_names two_modules)
    × Distinct (all_module_names two_modules)
    × ((name : Bytes) → In name (all_module_names two_modules) ↔ IsOffered two_modules name)
all_module_names_lem_example = all_module_names_lem two_modules

abbrev items : List Item
items =
    record { domain = []; ip = codes "192.0.2.1"; port = negsuc 0; protocol = codes "tcp" }
    ∷ record { domain = []; ip = codes "192.0.2.2"; port = pos 80; protocol = codes "tcp" }
    ∷ []

pick_items-usable_example : pick_items type_ip 1 items [] ≡ take 1 (usable type_ip items)
pick_items-usable_example = pick_items-usable type_ip 1 items

-- The first attempt is lost.
abbrev second_time : ℕ → Get Bytes
second_time zero = unreachable (codes "timeout")
second_time (suc n) = answered (record { status_code = 200; body = codes "{}"; body_err = none })

query-IsFirstAnswer_example : IsFirstAnswer second_time (query second_time)
query-IsFirstAnswer_example = query-IsFirstAnswer second_time
