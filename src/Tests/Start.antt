-- ===== src/Tests/Start.antt =====
-- The theorems on the commands and on the SSH connection at concrete answers.
use flightsim.Prelude.{
  ℕ, ◌+◌, ◌≡◌, ◌↔◌, refl, inl, inr, List, [], ◌∷◌, none, some, true, false, replicate, Option, ◌⊎◌,
}
use flightsim.Prelude.Bytes.{Bytes, bytes_eq, codes, contains_byte}
use flightsim.Cmd.Modules.{Module, port_scan, ip, entry}
use flightsim.Cmd.Select.{Simulation}
use flightsim.Cmd.Select.Laws.{HasUnknown}
use flightsim.Cmd.Run.{panicked, Modules, run}
use flightsim.Cmd.Run.Trace.{tally, is_simulated, is_waited}
use flightsim.Cmd.Run.Accounts.{reported, run-IsAccounted}
use flightsim.Cmd.Run.Protocol.{Rounds, run-Rounds}
use flightsim.Cmd.Get.{run_get}
use flightsim.Cmd.Get.Accepts.{Accepted, run_get-Accepted}
use flightsim.Cmd.Command.{Flags, Probe, Ran, no_such_module, run_cmd}
use flightsim.Cmd.Command.Refused.{run_cmd_refused, run_cmd_dry}
use flightsim.Utils.Net.{System, usable, usable_ip}
use flightsim.Wisdom.{negsuc}
use flightsim.Simulator.Connect.{BindAddr}
use flightsim.Ssh.Connect.{SshLibrary, closes, net_conn, connect_client}
use flightsim.Ssh.Connect.Releases.{Releases, all_closed, connect_client-Releases, open_after}

abbrev scan_only : List Module
scan_only = record (entry port_scan (codes "scan") ip) { num_of_hosts = 2 } ∷ []

-- Modules with one host, whose simulation panics.
abbrev panicking : BindAddr → Modules ℕ Bytes
panicking bind = record {
  init = λ sim w. (none, w);
  hosts = λ sim scope size w. (codes "a" ∷ [], none, w);
  simulate = λ sim host w. (panicked, w + 1);
  cleanup = λ sim w. w;
  host_msg = λ sim w. none;
  perm = λ n w. (replicate n 0, w);
}

abbrev no_bind : BindAddr
no_bind = record { addr = []; user_set = false }

abbrev scan_sim : Simulation
scan_sim = record { module_of = entry port_scan (codes "scan") ip; scope = []; size = 0 }

run-Rounds_example :
    let r = run (panicking no_bind) false false (scan_sim ∷ scan_sim ∷ []) 0 0 in
    Rounds (panicking no_bind) false false 0 (scan_sim ∷ scan_sim ∷ []) 0 r.0 r.1
run-Rounds_example = run-Rounds (panicking no_bind) false false (scan_sim ∷ scan_sim ∷ []) 0 0

run-IsAccounted_example :
    tally reported (run (panicking no_bind) false false (scan_sim ∷ scan_sim ∷ []) 0 0).0
    ≡ tally is_simulated (run (panicking no_bind) false false (scan_sim ∷ scan_sim ∷ []) 0 0).0
run-IsAccounted_example =
    run-IsAccounted (panicking no_bind) false false (scan_sim ∷ scan_sim ∷ []) 0 0

-- `-iface 192.0.2.1 -dry`, with a size below 0
abbrev dry_flags : Flags
dry_flags = record {
  fast = false;
  dry_run = true;
  iface_name = codes "192.0.2.1";
  size = negsuc 4;
  args = [];
}

abbrev at_home : System Bytes
at_home = record {
  parse_ip = λ text. some (192 ∷ 0 ∷ 2 ∷ 1 ∷ []);
  interface_addrs = λ name. inr [];
  local_addr = inl (codes "timeout");
}

abbrev no_probe : Probe Bytes
no_probe = record {
  lookup_err = some (codes "timeout");
  default_dns_server = [];
  local_addr = λ server. inl (codes "timeout");
}

usable-at_home : usable_ip at_home (codes "192.0.2.1") ≡ usable (some (192 ∷ 0 ∷ 2 ∷ 1 ∷ []))
unfolding usable_ip bytes_eq
usable-at_home = refl

run_cmd_dry_example :
    (ran : Ran ℕ Bytes) × (run_cmd scan_only panicking (λ a. a) no_probe dry_flags at_home 0
      ≡ inr ran)
    × (tally is_simulated ran.events ≡ 0)
    × (tally is_waited ran.events ≡ 0)
unfolding contains_byte
run_cmd_dry_example =
    run_cmd_dry scan_only panicking (λ a. a) no_probe dry_flags at_home 0
      (some (192 ∷ 0 ∷ 2 ∷ 1 ∷ [])) (refl, tt) refl refl usable-at_home

abbrev wrong_flags : Flags
wrong_flags = record dry_flags { args = codes "scam" ∷ [] }

run_cmd_refused_example :
    ((name : Bytes) × (run_cmd scan_only panicking (λ a. a) no_probe wrong_flags at_home 0
        ≡ inl (no_such_module name)))
    ↔ (((ip : Option Bytes) × (usable_ip at_home (codes "192.0.2.1") ≡ usable ip))
        × HasUnknown (codes "scam" ∷ []) scan_only)
run_cmd_refused_example =
    run_cmd_refused scan_only panicking (λ a. a) no_probe wrong_flags at_home 0

abbrev one_family : Bytes → Bytes ⊎ List Bytes
one_family category = inr (codes "trickbot" ∷ [])

run_get-Accepted_example :
    ((run_get one_family (codes "families:c2")).1 ≡ none)
    ↔ Accepted one_family (codes "families:c2")
run_get-Accepted_example = run_get-Accepted one_family (codes "families:c2")

-- The pipe for the output fails.
abbrev no_stdout : SshLibrary Bytes
no_stdout = record {
  dial_err = none;
  client_conn_err = none;
  on_failed_handshake = closes net_conn ∷ [];
  session_err = none;
  stdin_err = none;
  stdout_err = some (codes "closed");
}

connect_client-Releases_example : Releases all_closed (connect_client no_stdout (codes "user"))
connect_client-Releases_example =
    connect_client-Releases no_stdout (codes "user") (unfold open_after in refl)
