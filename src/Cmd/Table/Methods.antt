-- ===== src/Cmd/Table/Methods.antt =====
-- `Init`, `Simulate` and `Cleanup` of the modules of the table, and the table as the parameter of `run`.
use flightsim.Prelude.{ℕ, Bool, false, List, [], ◌∷◌, Option, none, some, ◌==◌, if◌then◌else◌}
use flightsim.Prelude.Bytes.{Bytes}
use flightsim.Cmd.Modules.{
  Kind, BaseSimulator, create_module, dga, port_scan, spambot, tunnel, tor, icmp_tunnel, oast,
  ssh_transfer, ssh_exfil, telegram_bot, cleartext, dns_resolve, tcp_connect, stratum_miner,
  irc_client,
}
use flightsim.Cmd.Run.{Ending, fine, failed, panicked, Modules}
use flightsim.Cmd.Table.{
  HeldOpen, tor_process, icmp_socket, World, Answers, Environment, ModuleError, of_system, of_go,
  of_irc, of_tor, of_icmp, of_ssh, module_hosts, module_host_msg,
}
use flightsim.Simulator.Connect.{
  BindAddr, BoundSimulator, init_bound, local_addr_of, tcp_simulate_from, dns_simulate_from,
}
use flightsim.Simulator.Dga.{dga_init}
use flightsim.Simulator.Scan.{scan_init, scan_simulate}
use flightsim.Simulator.Spambot.{spam_init}
use flightsim.Simulator.Miner.{miner_init, miner_simulate}
use flightsim.Simulator.Irc.{IrcEnd, irc_returned, slice_panic, irc_init, irc_simulate}
use flightsim.Simulator.Lookups.{oast_init, tunnel_init, tunnel_simulate, oast_loop}
use flightsim.Simulator.Tor.{TorError, tor_init, tor_cleanup, tor_simulate}
use flightsim.Simulator.IcmpTunnel.{IcmpError, icmp_init, icmp_cleanup, icmp_simulate}
use flightsim.Simulator.Telegram.{Ended, returned, panicked as no_response, telegram_simulate}
use flightsim.Simulator.Cleartext.{cleartext_init, cleartext_simulate}
use flightsim.Simulator.SshTransfer.{Simulated, success, init, simulate}

abbrev pub ending_of : {E X : Type 0} → (X → ModuleError E) → Option X → Ending (ModuleError E)
ending_of f none = fine
ending_of f (some x) = failed (f x)

abbrev pub of_telegram : {E : Type 0} → Ended E → Ending (ModuleError E)
of_telegram (returned err) = ending_of of_system err
of_telegram no_response = panicked

abbrev pub of_irc_end : {E : Type 0} → IrcEnd → Ending (ModuleError E)
of_irc_end (irc_returned err) = ending_of of_irc err
of_irc_end slice_panic = panicked

abbrev pub of_transfer : {E : Type 0} → Simulated → Ending (ModuleError E)
of_transfer success = fine
of_transfer result = failed (of_ssh result)

abbrev pub error_of : {E X : Type 0} → (X → ModuleError E) → Option X → Option (ModuleError E)
error_of f none = none
error_of f (some x) = some (f x)

-- A field that is set only if there is a value.
abbrev pub kept : Option ℕ → Option ℕ → Option ℕ
kept old none = old
kept old (some new) = some new

abbrev pub opened : (ℕ → HeldOpen) → Option ℕ → List HeldOpen → List HeldOpen
opened f none held = held
opened f (some n) held = f n ∷ held

abbrev pub same_handle : HeldOpen → HeldOpen → Bool
same_handle (tor_process m) (tor_process n) = m == n
same_handle (icmp_socket m) (icmp_socket n) = m == n
same_handle _ _ = false

-- To close what is not open does nothing.
unfoldable pub close_handle : HeldOpen → List HeldOpen → List HeldOpen
close_handle h [] = []
close_handle h (x ∷ held) = if same_handle h x then held else x ∷ close_handle h held

abbrev pub close_all : (ℕ → HeldOpen) → List ℕ → List HeldOpen → List HeldOpen
close_all f [] held = held
close_all f (n ∷ ns) held = close_all f ns (close_handle (f n) held)

-- `Cleanup` of a module, by its kind; the fields keep their values.
unfoldable pub module_cleanup : {G : Type 0} → Kind → World G → World G
module_cleanup tor w = record w {
  held_open = close_all tor_process (tor_cleanup w.tor) w.held_open;
}
module_cleanup icmp_tunnel w = record w {
  held_open = close_all icmp_socket (icmp_cleanup w.icmp) w.held_open;
}
module_cleanup _ w = w

module _ {G E : Type 0} (env : Environment G E) (bind : BindAddr) where
  abbrev init_tor : World G → Option (TorError E) × Option ℕ → Option (ModuleError E) × World G
  init_tor w (err, process) = (
    error_of of_tor err,
    record w { tor = kept w.tor process; held_open = opened tor_process process w.held_open },
  )

  abbrev init_icmp : World G → Option (IcmpError E) × Option ℕ → Option (ModuleError E) × World G
  init_icmp w (err, socket) = (
    error_of of_icmp err,
    record w { icmp = kept w.icmp socket; held_open = opened icmp_socket socket w.held_open },
  )

  -- `Init` of a simulator that a host source is joined with.
  abbrev pub base_init : BaseSimulator → BoundSimulator → BoundSimulator
  base_init dns_resolve s = init_bound bind s
  base_init tcp_connect s = init_bound bind s
  base_init stratum_miner s = miner_init bind s
  base_init irc_client s = irc_init bind s

  -- `Init` of a module, by its kind.
  unfoldable pub module_init : Kind → World G → Option (ModuleError E) × World G
  module_init (create_module category host_type simulator) w =
      (none, record w { bound = base_init simulator w.bound })
  module_init dga w = (none, record w { bound = dga_init bind w.bound })
  module_init port_scan w = (none, record w { bound = scan_init bind w.bound })
  module_init spambot w = (none, record w { bound = spam_init bind w.bound })
  module_init tunnel w = (none, record w { bound = tunnel_init bind w.bound })
  module_init tor w = init_tor w (tor_init (env.answers w.generator).tor_start)
  module_init icmp_tunnel w =
      init_icmp w (icmp_init ((env.answers w.generator).icmp_listen bind.addr))
  module_init oast w = (none, record w { bound = oast_init bind w.bound })
  module_init ssh_transfer w = (none, record w { transfer = init bind.addr w.transfer })
  module_init ssh_exfil w = (none, record w { exfil = init bind.addr w.exfil })
  module_init telegram_bot w = (none, w)
  module_init cleartext w =
      (none, record w { cleartext = cleartext_init (env.answers w.generator).rand_read bind })

  abbrev pub base_simulate :
      Answers E → BaseSimulator → BoundSimulator → Bytes → Ending (ModuleError E)
  base_simulate net dns_resolve s host =
      ending_of of_go (dns_simulate_from net.lookup_host s host).0
  base_simulate net tcp_connect s host = ending_of of_go (tcp_simulate_from net.dial s host).0
  base_simulate net stratum_miner s host =
      ending_of of_go (miner_simulate (net.stratum s.bind.addr host) host).0
  base_simulate net irc_client s host =
      of_irc_end (irc_simulate net.rand_read (net.irc_connect s.bind.addr) host)

  -- The method is called on a nil process if there is none.
  abbrev pub simulate_tor : Answers E → Bytes → Option ℕ → Ending (ModuleError E)
  simulate_tor net host none = panicked
  simulate_tor net host (some p) =
      ending_of of_tor (tor_simulate (net.tor_dialer p) (net.tor_get p) host)

  -- How `Simulate` of a module ends, by its kind.
  unfoldable pub simulate_kind : Kind → Bytes → World G → Ending (ModuleError E)
  simulate_kind (create_module category host_type simulator) host w =
      base_simulate (env.answers w.generator) simulator w.bound host
  simulate_kind dga host w =
      ending_of of_go (dns_simulate_from (env.answers w.generator).lookup_host w.bound host).0
  simulate_kind port_scan host w =
      ending_of of_go (scan_simulate ((env.answers w.generator).dial w.bound.bind.addr) host).0
  simulate_kind spambot host w =
      ending_of of_go (tcp_simulate_from (env.answers w.generator).dial w.bound host).0
  simulate_kind tunnel host w =
      let lookups = (env.answers w.generator).lookups (local_addr_of w.bound.bind) host in
      ending_of of_go (tunnel_simulate env.intn host lookups w.generator).1
  simulate_kind tor host w = simulate_tor (env.answers w.generator) host w.tor
  simulate_kind icmp_tunnel host w =
      let net = env.answers w.generator in
      ending_of of_icmp
        (icmp_simulate (net.icmp_network w.icmp host) env.read_random net.pid w.generator).1
  simulate_kind oast host w =
      let lookups = (env.answers w.generator).lookups (local_addr_of w.bound.bind) host in
      ending_of of_go (oast_loop env.intn host lookups w.generator).1
  simulate_kind ssh_transfer host w =
      let net = env.answers w.generator in
      let clients = env.respond w.generator w.transfer.src host in
      of_transfer (simulate net.signer_err clients net.arrive w.transfer)
  simulate_kind ssh_exfil host w =
      let net = env.answers w.generator in
      let clients = env.respond w.generator w.exfil.src host in
      of_transfer (simulate net.signer_err clients net.arrive w.exfil)
  simulate_kind telegram_bot host w =
      let net = env.answers w.generator in
      of_telegram (telegram_simulate net.telegram_get net.telegram_random net.telegram_token)
  simulate_kind cleartext host w =
      let peer = (env.answers w.generator).peer w.cleartext.bind.addr host in
      ending_of of_go (cleartext_simulate w.cleartext peer host).0

  -- The table as the modules of `run`.
  unfoldable pub table_modules : Modules (World G) (ModuleError E)
  table_modules = record {
    init = λ sim w. module_init sim.module_of.kind w;
    hosts = λ sim scope size w.
        let ((answer, e), w') = module_hosts env sim.module_of.kind scope size w in (answer, e, w');
    simulate = λ sim host w. (
      simulate_kind sim.module_of.kind host w,
      record w { generator = env.later sim.module_of.kind host w.generator },
    );
    cleanup = λ sim w. module_cleanup sim.module_of.kind w;
    host_msg = λ sim w. module_host_msg env sim.module_of.kind w;
    perm = λ n w. let (order, g) = env.perm n w.generator in (order, record w { generator = g });
  }
