-- ===== src/Tests/Table.antt =====
-- The theorems on the table of modules, at a network that answers nothing.
use flightsim.Prelude.{
  ◌++◌, ◌+◌, ℕ, zero, suc, length-replicate, ◌<◌, All, ◌≤◌, refl, inl, inr, List, [], ◌∷◌, none,
  some, true, false, replicate, arith, get_or, ◌≡◌, ◌↔◌,
}
use flightsim.Prelude.Bytes.{itoa, Bytes, IsByte, codes}
use flightsim.Cmd.Modules.{port_scan, ip, entry}
use flightsim.Cmd.Select.{Simulation}
use flightsim.Cmd.Run.{run}
use flightsim.Simulator.Connect.{BindAddr, GoError}
use flightsim.Wisdom.{unreachable}
use flightsim.Simulator.SshTransfer.{new_ssh_transfer}
use flightsim.Cmd.Run.Hosts.{simulated_hosts}
use flightsim.Cmd.Table.{World, Answers, Environment}
use flightsim.Cmd.Table.Methods.{table_modules}
use flightsim.Simulator.Tor.{running}
use flightsim.Simulator.IcmpTunnel.{listening}
use flightsim.Cmd.Modules.{Kind, port_scan, tor, icmp_tunnel, telegram_bot}
use flightsim.Ssh.Result.{err, io, eof}
use flightsim.Ssh.Transfer.{WriteResponse}
use flightsim.Simulator.SshTransfer.{worker, delivered, simulate_client, new_client}
use flightsim.Wisdom.{pos}
use flightsim.Utils.Net.{System}
use flightsim.Cmd.Command.{Probe, exit_status}
use flightsim.Cmd.Program.{Libraries, program}
use flightsim.Cmd.Program.Exits.{EndsWell, program-EndsWell}
use flightsim.Cmd.Table.Held.{HasNoneOpen, run-HasNoneOpen}
use flightsim.Cmd.Table.Targets.{IsFair, IsTarget, run-IsTarget}

abbrev no_bind : BindAddr
no_bind = record { addr = []; user_set = false }

abbrev scan_sim : Simulation
scan_sim = record { module_of = entry port_scan (codes "scan") ip; scope = []; size = 0 }

-- A permutation, of the numbers below `n`.
abbrev countdown : ℕ → List ℕ
countdown zero = []
countdown (suc n) = n ∷ countdown n

countdown-All : (m n : ℕ) → n ≤ m → All (λ k. k < m) (countdown n)
countdown-All m zero h = tt
countdown-All m (suc n) h = (omega arith, countdown-All m n (omega arith))

-- Every call times out.
abbrev timed_out : GoError
timed_out = record { is_eof = false; timeout = some true; text = codes "timeout" }

-- The network answers nothing, but a process of Tor and a socket can be had.
abbrev no_answers : Answers Bytes
no_answers = record {
  dial = λ local dst. record { connected = false; err = some timed_out };
  lookup_host = λ local host. some timed_out;
  lookups = λ local host. [];
  stratum = λ local dst. record {
    connected = false;
    dial_err = some timed_out;
    deadline_err = none;
    write_err = none;
    read_err = none;
  };
  peer = λ local dst. record { dial_err = some timed_out; write_err = none; read_err = none };
  rand_read = λ n. replicate n 0;
  irc_connect = λ local config. some timed_out;
  telegram_get = λ url. record { status_code = none; err = some (codes "timeout") };
  telegram_token = [];
  telegram_random = [];
  tor_start = running 7;
  tor_dialer = λ process. none;
  tor_get = λ process url. some (codes "timeout");
  icmp_listen = λ local. listening 5;
  icmp_network = λ socket host. record {
    marshal = λ echo. inr [];
    lookup_ip = λ i. inl (codes "timeout");
    write_err = λ i. none;
    read_err = λ i. none;
  };
  pid = 1;
  signer_err = none;
  arrive = λ rs. rs;
}

abbrev no_response : ℕ → WriteResponse
no_response i = record {
  client_name = codes "alphasoc-" ++ itoa i;
  bytes_sent = 0;
  handle = [];
  err = some (io eof);
}

no_response_lem :
    (g i size : ℕ)
    → (worker {G = ℕ} (λ g' n. (replicate n 0, g')) (g + i) (λ name. err (io eof)) i size).delivery
      ≡ delivered (no_response i)
unfolding worker simulate_client new_client
no_response_lem g i size = refl

-- Random numbers that are all 0, and a system that answers nothing.
abbrev zero_environment : Environment ℕ Bytes
zero_environment = record {
  perm = λ n g. (countdown n, g);
  intn = λ g n. (0, g);
  read_random = λ g n. (replicate n 0, g);
  advance = λ kind scope size g. g;
  get = λ query n. unreachable (codes "timeout");
  parse = λ body. inr [];
  shuffle = λ g items. items;
  lookup_mx = λ domain. [];
  lookup_ip = inl (codes "timeout");
  parse_size = λ text. none;
  format_size = λ size form unit long. [];
  answers = λ g. no_answers;
  later = λ kind host g. g;
  fork = λ g i. g + i;
  connect = λ g src host name. err (io eof);
  respond = λ g src host i size. no_response i;
  responds = λ g src host i size fits. no_response_lem g i size;
}

zeros-All : (n : ℕ) → All IsByte (replicate n 0)
zeros-All zero = tt
zeros-All (suc n) = (omega arith, zeros-All n)

abbrev first_world : World ℕ
first_world = record {
  generator = 0;
  bound = record { bind = no_bind };
  cleartext = record { bind = no_bind; data_to_send = [] };
  transfer = new_ssh_transfer;
  exfil = new_ssh_transfer;
  tor = none;
  icmp = none;
  held_open = [];
}

-- Tor, the ICMP tunnel and the telegram bot, each with one host.
abbrev sim_of : Kind → Simulation
sim_of kind = record { module_of = entry kind (codes "sim") ip; scope = []; size = 0 }

abbrev three_sims : List Simulation
three_sims = sim_of tor ∷ sim_of icmp_tunnel ∷ sim_of telegram_bot ∷ []

run-HasNoneOpen_example :
    HasNoneOpen (run (table_modules zero_environment no_bind) true false three_sims 1 first_world).1
run-HasNoneOpen_example =
    run-HasNoneOpen zero_environment no_bind true false three_sims 1 first_world refl

zero_environment-IsFair : IsFair zero_environment
zero_environment-IsFair = record {
  numbers = λ g n pos. pos;
  orders = λ n g. countdown-All n n (omega arith);
  bytes = λ g n. (length-replicate n 0, zeros-All n);
}

run-IsTarget_example :
    All
      (λ call. IsTarget zero_environment call.0.module_of.kind call.1)
      (simulated_hosts
        (run
          (table_modules zero_environment no_bind)
          true
          false
          (sim_of port_scan ∷ three_sims)
          3
          first_world).0)
run-IsTarget_example =
    run-IsTarget zero_environment zero_environment-IsFair no_bind true false
      (sim_of port_scan ∷ three_sims) 3 first_world

-- Libraries that read no flags and answer nothing.
abbrev plain_libraries : Libraries Bytes
plain_libraries = record {
  root_flags = λ args. inr args;
  run_flags = λ args.
      inr (record { fast = false; dry_run = true; iface_name = []; size = pos 0; args = args });
  get_arg = λ args. inr (get_or args 0 []);
  text = λ e. e;
  no_port_text = codes "missing port in address";
  ip_string = λ address. address;
  parse_families = λ body. inr [];
}

abbrev offline : System Bytes
offline = record {
  parse_ip = λ text. none;
  interface_addrs = λ name. inr [];
  local_addr = inl (codes "timeout");
}

abbrev no_probe : Probe Bytes
no_probe = record {
  lookup_err = some (codes "timeout");
  default_dns_server = [];
  local_addr = λ server. inl (codes "timeout");
}

abbrev run_scan : List Bytes
run_scan = codes "run" ∷ codes "scan" ∷ []

program-EndsWell_example :
    (exit_status
        (program plain_libraries zero_environment offline no_probe (codes "2") first_world run_scan)
      ≡ 0)
    ↔ EndsWell plain_libraries zero_environment offline no_probe (codes "2") first_world run_scan
program-EndsWell_example =
    program-EndsWell plain_libraries zero_environment offline no_probe (codes "2") first_world
      run_scan
