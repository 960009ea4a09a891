-- ===== src/Tests/Simulators.antt =====
-- The theorems on the simulators of v2/simulator at concrete answers of the network.
use flightsim.Prelude.{
  ◌⊎◌, ℕ, ◌≤◌, ◌≡◌, ◌↔◌, refl, inl, inr, [], ◌∷◌, ◌++◌, none, some, true, false, length, replicate,
  In, arith,
}
use flightsim.Prelude.Bytes.{Bytes, codes, itoa, contains_byte}
use flightsim.Net.{join_host_port}
use flightsim.Utils.Net.{System, ip_net, usable_ip, addrs_of}
use flightsim.Utils.Net.Laws.{IsBest, usable_ip-IsBest}
use flightsim.Utils.Rand.Laws.{IsIntn}
use flightsim.Wisdom.{pos}
use flightsim.Simulator.Connect.{GoError, Dialled, closed}
use flightsim.Simulator.Scan.{scan_ports, scan_simulate}
use flightsim.Simulator.Scan.Ports.{Scans, scan_simulate-Scans}
use flightsim.Simulator.Telegram.{Got, telegram_simulate, telegram_url, bot_methods}
use flightsim.Simulator.Telegram.Answers.{Ends, telegram_simulate-Ends}
use flightsim.Simulator.Miner.{Stratum, miner_simulate}
use flightsim.Simulator.Miner.Closes.{miner_simulate-In}
use flightsim.Simulator.Irc.{irc_target}
use flightsim.Simulator.Irc.Target.{irc_target-join_host_port}
use flightsim.Simulator.Lookups.{tunnel_simulate}
use flightsim.Simulator.Lookups.Names.{Resolves, tunnel_simulate-Resolves}
use flightsim.Utils.Net.{fqdn}
use flightsim.Simulator.IcmpTunnel.{IcmpNetwork, IcmpError, icmp_simulate, ping_count}
use flightsim.Simulator.IcmpTunnel.Pings.{AreEchoes, icmp_simulate-Sends}

abbrev host : Bytes
host = codes "192.0.2.7"

abbrev unreachable_error : GoError
unreachable_error = record {
  is_eof = false;
  timeout = some false;
  text = codes "connect: network is unreachable";
}

-- Every connection is made, but an error comes with it.
abbrev odd_dial : Bytes → Dialled
odd_dial address = record { connected = true; err = some unreachable_error }

scan_simulate-Scans_example : Scans odd_dial host scan_ports (scan_simulate odd_dial host)
scan_simulate-Scans_example = scan_simulate-Scans odd_dial host

-- An interface with a loopback address and another one.
abbrev system : System Bytes
system = record {
  parse_ip = λ text. none;
  interface_addrs =
      λ name. inr (ip_net (127 ∷ 0 ∷ 0 ∷ 1 ∷ []) ∷ ip_net (192 ∷ 0 ∷ 2 ∷ 1 ∷ []) ∷ []);
  local_addr = inl (codes "timeout");
}

usable_ip-IsBest_example :
    IsBest ((127 ∷ 0 ∷ 0 ∷ 1 ∷ []) ∷ (192 ∷ 0 ∷ 2 ∷ 1 ∷ []) ∷ []) (usable_ip system (codes "eth0"))
unfolding addrs_of
usable_ip-IsBest_example =
    usable_ip-IsBest system (codes "eth0")
      (ip_net (127 ∷ 0 ∷ 0 ∷ 1 ∷ []) ∷ ip_net (192 ∷ 0 ∷ 2 ∷ 1 ∷ []) ∷ []) (λ h. cc h) refl refl

-- A generator that always draws 0.
abbrev zeros : ℕ → ℕ → ℕ × ℕ
zeros g n = (0, g)

zeros-IsIntn : IsIntn zeros
zeros-IsIntn g n bound = bound

tunnel_simulate-Resolves_example :
    Resolves 30 (fqdn (codes "sandbox.alphasoc.xyz")) (none ∷ some unreachable_error ∷ none ∷ []) (
      tunnel_simulate zeros
        (codes "sandbox.alphasoc.xyz")
        (none ∷ some unreachable_error ∷ none ∷ [])
        0)
tunnel_simulate-Resolves_example =
    tunnel_simulate-Resolves zeros zeros-IsIntn (codes "sandbox.alphasoc.xyz")
      (none ∷ some unreachable_error ∷ none ∷ []) 0

-- No request is answered.
abbrev no_answer : Bytes → Got Bytes
no_answer url = record { status_code = none; err = some (codes "no such host") }

telegram_simulate-Ends_example :
    Ends no_answer
      (telegram_url ++ (codes "1:a" ++ codes "/"))
      bot_methods
      (telegram_simulate no_answer (codes "0:b") (codes "1:a"))
telegram_simulate-Ends_example = telegram_simulate-Ends no_answer (codes "0:b") (codes "1:a")

-- The write fails.
abbrev no_write : Stratum
no_write = record {
  connected = true;
  dial_err = none;
  deadline_err = none;
  write_err = some unreachable_error;
  read_err = none;
}

miner_simulate-In_example :
    In closed (miner_simulate no_write host).1
    ↔ ((true ≡ true) × (no_write.deadline_err ≡ none) × (some unreachable_error ≡ none))
miner_simulate-In_example = miner_simulate-In no_write host

irc_target-join_host_port_example :
    irc_target (join_host_port (codes "2001:db8::1") (itoa 6697))
    ≡ inr (codes "2001:db8::1", pos 6697)
unfolding contains_byte
irc_target-join_host_port_example =
    irc_target-join_host_port (codes "2001:db8::1") 6697 refl refl (omega arith)

-- A network that answers everything.
abbrev echoing : IcmpNetwork Bytes
echoing = record {
  marshal = λ echo. inr echo.payload;
  lookup_ip = λ i. inr ((192 ∷ 0 ∷ 2 ∷ 1 ∷ []) ∷ []);
  write_err = λ i. none;
  read_err = λ i. none;
}

abbrev no_random : ℕ → ℕ → Bytes × ℕ
no_random g n = (replicate n 0, g)

icmp_simulate-Sends_example :
    let (pings, err) = icmp_simulate echoing no_random 1 0 in
    AreEchoes echoing no_random 1 0 pings
    × (length pings ≤ ping_count)
    × ((length pings ≡ ping_count) ⊎ ((e : IcmpError Bytes) × (err ≡ some e)))
icmp_simulate-Sends_example = icmp_simulate-Sends echoing no_random 1 0
