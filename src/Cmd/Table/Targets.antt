-- ===== src/Cmd/Table/Targets.antt =====
-- Where the traffic of the modules goes, from the command line to the network.
use flightsim.Prelude.{
  ℕ, ◌<◌, ◌≤◌, ◌≡◌, refl, inl, inr, Bool, List, [], ◌∷◌, ◌++◌, length, map, get_or, get_or-In, leb,
  All, All-append, In, Bool-cases,
}
use flightsim.Prelude.Bytes.{Bytes}
use flightsim.Cmd.Modules.{
  Kind, create_module, dga, port_scan, spambot, tunnel, tor, icmp_tunnel, oast, ssh_transfer,
  ssh_exfil, telegram_bot, cleartext,
}
use flightsim.Cmd.Select.{Simulation}
use flightsim.Cmd.Run.{run}
use flightsim.Cmd.Run.Hosts.{IsBelow, simulated_hosts, run-Calls}
use flightsim.Cmd.Table.{World, Environment, module_hosts}
use flightsim.Cmd.Table.Methods.{table_modules}
use flightsim.Simulator.Connect.{BindAddr}
use flightsim.Simulator.Dga.Laws.{IsDgaName, dga_hosts-IsDgaName}
use flightsim.Simulator.Scan.{scan_ip_ranges, ip_string, hosts_of_scan, scan_hosts}
use flightsim.Simulator.Scan.Hosts.{IsGenerator, IsTestNet, scan_hosts-IsTargets}
use flightsim.Simulator.Spambot.{popular_domains, spam_hosts}
use flightsim.Simulator.Spambot.Laws.{IsMailHost, spam_hosts_lem}
use flightsim.Simulator.Tor.{tor_hosts, tor_loop, hosts_of_tor}
use flightsim.Simulator.Lookups.{tunnel_hosts, oast_hosts}
use flightsim.Simulator.IcmpTunnel.{icmp_hosts}
use flightsim.Simulator.Telegram.{telegram_hosts}
use flightsim.Utils.Rand.Laws.{IsIntn}

-- The laws of the random generator: its numbers and permutations are within their bounds, and it gives
-- as many bytes as asked.
pub record IsFair {G E : Type 0} (env : Environment G E) : Type 0 where
  pub numbers : IsIntn env.intn
  pub orders : IsBelow env.perm
  pub bytes : IsGenerator env.read_random

-- The text of an address in a network of RFC 5737.
abbrev pub IsTestHost : Bytes → Type 0
IsTestHost host = (ip : Bytes) × (host ≡ ip_string ip) × IsTestNet ip

-- What a module may call: the port scan the networks of RFC 5737, the DGA names with labels of 7 to 10
-- characters, the spam simulator the mail servers of popular domains, and those with a list of hosts
-- only these. The others take their hosts from the scope, a lookup or the Wisdom API.
abbrev pub IsTarget : {G E : Type 0} → Environment G E → Kind → Bytes → Type 0
IsTarget env (create_module _ _ _) host = Unit {0}
IsTarget env dga host = (len : ℕ) × (7 ≤ len) × (len ≤ 10) × IsDgaName len host
IsTarget env port_scan host = IsTestHost host
IsTarget env spambot host = IsMailHost env.lookup_mx popular_domains host
IsTarget env tunnel host = In host tunnel_hosts
IsTarget env tor host = In host tor_hosts
IsTarget env icmp_tunnel host = In host icmp_hosts
IsTarget env oast host = In host oast_hosts
IsTarget env ssh_transfer host = Unit {0}
IsTarget env ssh_exfil host = Unit {0}
IsTarget env telegram_bot host = In host telegram_hosts
IsTarget env cleartext host = Unit {0}

map-IsTestHost : (ips : List Bytes) → All IsTestNet ips → All IsTestHost (map ip_string ips)
map-IsTestHost [] h = tt
map-IsTestHost (ip ∷ ips) (t, h) = ((ip, refl, t), map-IsTestHost ips h)

tor_loop-In :
    (order : List ℕ) (size : ℕ) (hosts : List Bytes)
    → All (λ k. k < length tor_hosts) order
    → All (λ host. In host tor_hosts) hosts
    → All (λ host. In host tor_hosts) (tor_loop order size hosts)
unfolding tor_loop
tor_loop-In [] size hosts below h = h
tor_loop-In (i ∷ order) size hosts (lt, below) h = elim (Bool-cases (leb size (length hosts))) [
  | inl enough ↦ rw enough h
  | inr room ↦ rw room (
      tor_loop-In order size (hosts ++ (get_or tor_hosts i [] ∷ [])) below (
        All-append (λ host. In host tor_hosts) hosts (get_or tor_hosts i [] ∷ []) h
          (get_or-In tor_hosts i [] lt, tt)))
]

All-Unit : (hosts : List Bytes) → All (λ _. Unit {0}) hosts
All-Unit [] = tt
All-Unit (host ∷ hosts) = (tt, All-Unit hosts)

All-In :
    (hosts all : List Bytes)
    → ((host : Bytes) → In host hosts → In host all)
    → All (λ host. In host all) hosts
All-In [] all sub = tt
All-In (host ∷ hosts) all sub = (sub host (inl refl), All-In hosts all (λ h i. sub h (inr i)))

picked-In :
    (domains : List Bytes) (order : List ℕ) (domain : Bytes)
    → All (λ k. k < length domains) order
    → In domain (map (λ k. get_or domains k []) order)
    → In domain domains
picked-In domains [] domain below i = absurd i
picked-In domains (k ∷ order) domain (lt, below) (inl e) = rw e (get_or-In domains k [] lt)
picked-In domains (k ∷ order) domain (lt, below) (inr i) = picked-In domains order domain below i

-- The mail hosts of domains are those of a list that holds these.
IsMailHost-All :
    (lookup_mx : Bytes → List Bytes) (some_domains domains hosts : List Bytes)
    → ((domain : Bytes) → In domain some_domains → In domain domains)
    → All (IsMailHost lookup_mx some_domains) hosts
    → All (IsMailHost lookup_mx domains) hosts
IsMailHost-All lookup_mx some_domains domains [] sub h = tt
IsMailHost-All lookup_mx some_domains domains (host ∷ hosts) sub
      ((domain, mx, rest, i, found, e), h) =
    (
      (domain, mx, rest, sub domain i, found, e),
      IsMailHost-All lookup_mx some_domains domains hosts sub h,
    )

spam_hosts-IsMailHost :
    (lookup_mx : Bytes → List Bytes) (order : List ℕ) (size : ℕ)
    → All (λ k. k < length popular_domains) order
    → All (IsMailHost lookup_mx popular_domains) (spam_hosts lookup_mx order size)
spam_hosts-IsMailHost lookup_mx order size below =
    let (few, distinct, mail) = spam_hosts_lem lookup_mx order size in
    IsMailHost-All lookup_mx (map (λ k. get_or popular_domains k []) order) popular_domains
      (spam_hosts lookup_mx order size) (λ domain. picked-In popular_domains order domain below)
      mail

dga_names :
    (len : ℕ) (hosts : List Bytes)
    → 7 ≤ len
    → len ≤ 10
    → All (IsDgaName len) hosts
    → All (λ host. (n : ℕ) × (7 ≤ n) × (n ≤ 10) × IsDgaName n host) hosts
dga_names len [] low high h = tt
dga_names len (host ∷ hosts) low high (name, h) =
    ((len, low, high, name), dga_names len hosts low high h)

module _ {G E : Type 0} (env : Environment G E) (fair : IsFair env) where
  module_hosts-IsTarget :
      (kind : Kind) (scope : Bytes) (size : ℕ) (w : World G)
      → All (IsTarget env kind) (module_hosts env kind scope size w).0.0
  unfolding module_hosts hosts_of_scan scan_ip_ranges hosts_of_tor
  module_hosts-IsTarget (create_module _ _ _) scope size w = All-Unit _
  module_hosts-IsTarget dga scope size w =
      let (order, g) = env.perm 7 w.generator in
      let (count, (len, low, high, names)) =
        dga_hosts-IsDgaName env.intn order size g fair.numbers (fair.orders 7 w.generator) in
      dga_names len _ low high names
  module_hosts-IsTarget port_scan scope size w =
      let (order, g) = env.perm 3 w.generator in
      let (few, distinct, test) =
        (scan_hosts-IsTargets env.read_random fair.bytes order size g
          (fair.orders 3 w.generator)).0 in
      map-IsTestHost (scan_hosts env.read_random order size g) test
  module_hosts-IsTarget spambot scope size w =
      spam_hosts-IsMailHost env.lookup_mx (env.perm (length popular_domains) w.generator).0 size
        (fair.orders (length popular_domains) w.generator)
  module_hosts-IsTarget tunnel scope size w = (inl refl, tt)
  module_hosts-IsTarget tor scope size w =
      tor_loop-In (env.perm (length tor_hosts) w.generator).0 size []
        (fair.orders (length tor_hosts) w.generator) tt
  module_hosts-IsTarget icmp_tunnel scope size w = (inl refl, tt)
  module_hosts-IsTarget oast scope size w = All-In oast_hosts oast_hosts (λ host i. i)
  module_hosts-IsTarget ssh_transfer scope size w = All-Unit _
  module_hosts-IsTarget ssh_exfil scope size w = All-Unit _
  module_hosts-IsTarget telegram_bot scope size w =
      All-In telegram_hosts telegram_hosts (λ host i. i)
  module_hosts-IsTarget cleartext scope size w = All-Unit _

  -- Whatever simulations of the table `run` is given and in any mode, it calls `Simulate` of a module
  -- only for hosts that it may call: the port scan only for addresses of the networks that RFC 5737
  -- reserves for documentation, the DGA simulator for its names, the spam simulator for mail servers
  -- of popular domains, and Tor, the tunnels, OAST and the Telegram bot for the hosts in their lists.
  -- The generator gives numbers within their bounds and as many bytes as asked.
  pub run-IsTarget :
      (bind : BindAddr) (fast dry_run : Bool) (sims : List Simulation) (size : ℕ) (w : World G)
      → All
          (λ call. IsTarget env call.0.module_of.kind call.1)
          (simulated_hosts (run (table_modules env bind) fast dry_run sims size w).0)
  unfolding table_modules
  run-IsTarget bind fast dry_run sims size w =
      run-Calls (table_modules env bind) fast (λ sim host. IsTarget env sim.module_of.kind host)
        (λ n v. fair.orders n v.generator) dry_run sims size w
        (λ sim wanted v. module_hosts-IsTarget sim.module_of.kind sim.scope wanted v)
