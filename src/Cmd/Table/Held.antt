-- ===== src/Cmd/Table/Held.antt =====
-- The processes and sockets of the table of modules in v2/cmd/run/run.go.
use flightsim.Prelude.{ℕ, ◌≡◌, refl, Bool, List, [], ◌∷◌, Option, none, some, arith}
use flightsim.Prelude.Bytes.{Bytes}
use flightsim.Cmd.Modules.{
  Kind, create_module, dga, port_scan, spambot, tunnel, tor, icmp_tunnel, oast, ssh_transfer,
  ssh_exfil, telegram_bot, cleartext,
}
use flightsim.Cmd.Select.{Simulation}
use flightsim.Cmd.Run.{run}
use flightsim.Cmd.Run.Balance.{IsBalanced, run-Closed}
use flightsim.Cmd.Table.{
  HeldOpen, tor_process, icmp_socket, World, Environment, ModuleError, module_hosts,
}
use flightsim.Cmd.Table.Methods.{
  kept, opened, close_handle, close_all, module_init, module_cleanup, table_modules,
}
use flightsim.Simulator.Connect.{BindAddr}
use flightsim.Simulator.Tor.{tor_init, tor_cleanup}
use flightsim.Simulator.IcmpTunnel.{icmp_init, icmp_cleanup}

abbrev pub HasNoneOpen : {G : Type 0} → World G → Type 0
HasNoneOpen w = w.held_open ≡ []

-- `Cleanup` of the module closes all that is open.
abbrev IsClosable : {G : Type 0} → Kind → World G → Type 0
IsClosable kind w = HasNoneOpen (module_cleanup kind w)

close_all-nothing : (f : ℕ → HeldOpen) (ns : List ℕ) → close_all f ns [] ≡ []
unfolding close_handle
close_all-nothing f [] = refl
close_all-nothing f (n ∷ ns) = close_all-nothing f ns

-- What `Init` opens, `Cleanup` closes, and no more if `Init` has opened nothing.
close_all-tor :
    (old new : Option ℕ)
    → close_all tor_process (tor_cleanup (kept old new)) (opened tor_process new []) ≡ []
unfolding close_handle tor_cleanup
close_all-tor old none = close_all-nothing tor_process (tor_cleanup old)
close_all-tor old (some p) = ground arith

close_all-icmp :
    (old new : Option ℕ)
    → close_all icmp_socket (icmp_cleanup (kept old new)) (opened icmp_socket new []) ≡ []
unfolding close_handle icmp_cleanup
close_all-icmp old none = close_all-nothing icmp_socket (icmp_cleanup old)
close_all-icmp old (some c) = ground arith

module _ {G E : Type 0} (env : Environment G E) (bind : BindAddr) where
  init-IsClosable :
      (kind : Kind) (w : World G) → HasNoneOpen w → IsClosable kind (module_init env bind kind w).1
  unfolding module_init module_cleanup
  init-IsClosable (create_module _ _ _) w h = h
  init-IsClosable dga w h = h
  init-IsClosable port_scan w h = h
  init-IsClosable spambot w h = h
  init-IsClosable tunnel w h = h
  init-IsClosable tor w h =
      rw h (close_all-tor w.tor (tor_init (env.answers w.generator).tor_start).1)
  init-IsClosable icmp_tunnel w h =
      rw h (close_all-icmp w.icmp (icmp_init ((env.answers w.generator).icmp_listen bind.addr)).1)
  init-IsClosable oast w h = h
  init-IsClosable ssh_transfer w h = h
  init-IsClosable ssh_exfil w h = h
  init-IsClosable telegram_bot w h = h
  init-IsClosable cleartext w h = h

  hosts-IsClosable :
      (kind : Kind) (scope : Bytes) (size : ℕ) (w : World G)
      → IsClosable kind w
      → IsClosable kind (module_hosts env kind scope size w).1
  unfolding module_hosts module_cleanup
  hosts-IsClosable (create_module _ _ _) scope size w h = h
  hosts-IsClosable dga scope size w h = h
  hosts-IsClosable port_scan scope size w h = h
  hosts-IsClosable spambot scope size w h = h
  hosts-IsClosable tunnel scope size w h = h
  hosts-IsClosable tor scope size w h = h
  hosts-IsClosable icmp_tunnel scope size w h = h
  hosts-IsClosable oast scope size w h = h
  hosts-IsClosable ssh_transfer scope size w h = h
  hosts-IsClosable ssh_exfil scope size w h = h
  hosts-IsClosable telegram_bot scope size w h = h
  hosts-IsClosable cleartext scope size w h = h

  -- A module whose `Hosts` fails holds nothing open.
  hosts_fails-HasNoneOpen :
      (kind : Kind) (scope : Bytes) (size : ℕ) (w : World G) (e : ModuleError E)
      → IsClosable kind w
      → (module_hosts env kind scope size w).0.1 ≡ some e
      → HasNoneOpen (module_hosts env kind scope size w).1
  unfolding module_hosts module_cleanup
  hosts_fails-HasNoneOpen (create_module _ _ _) scope size w x h e = h
  hosts_fails-HasNoneOpen dga scope size w x h e = h
  hosts_fails-HasNoneOpen port_scan scope size w x h e = h
  hosts_fails-HasNoneOpen spambot scope size w x h e = h
  hosts_fails-HasNoneOpen tunnel scope size w x h e = h
  hosts_fails-HasNoneOpen tor scope size w x h e = absurd (cc e)
  hosts_fails-HasNoneOpen icmp_tunnel scope size w x h e = absurd (cc e)
  hosts_fails-HasNoneOpen oast scope size w x h e = h
  hosts_fails-HasNoneOpen ssh_transfer scope size w x h e = h
  hosts_fails-HasNoneOpen ssh_exfil scope size w x h e = h
  hosts_fails-HasNoneOpen telegram_bot scope size w x h e = h
  hosts_fails-HasNoneOpen cleartext scope size w x h e = h

  generator-IsClosable :
      (kind : Kind) (g : G) (w : World G)
      → IsClosable kind w
      → IsClosable kind (record w { generator = g })
  unfolding module_cleanup
  generator-IsClosable (create_module _ _ _) g w h = h
  generator-IsClosable dga g w h = h
  generator-IsClosable port_scan g w h = h
  generator-IsClosable spambot g w h = h
  generator-IsClosable tunnel g w h = h
  generator-IsClosable tor g w h = h
  generator-IsClosable icmp_tunnel g w h = h
  generator-IsClosable oast g w h = h
  generator-IsClosable ssh_transfer g w h = h
  generator-IsClosable ssh_exfil g w h = h
  generator-IsClosable telegram_bot g w h = h
  generator-IsClosable cleartext g w h = h

  table_modules-IsBalanced :
      IsBalanced (table_modules env bind) HasNoneOpen (λ sim w. IsClosable sim.module_of.kind w)
  unfolding table_modules
  table_modules-IsBalanced = record {
    init_opens = λ sim w. init-IsClosable sim.module_of.kind w;
    hosts_keeps = λ sim scope size w. hosts-IsClosable sim.module_of.kind scope size w;
    hosts_fails = λ sim scope size w e. hosts_fails-HasNoneOpen sim.module_of.kind scope size w e;
    simulate_keeps = λ sim host w.
        generator-IsClosable sim.module_of.kind (env.later sim.module_of.kind host w.generator) w;
    perm_keeps = λ sim n w. generator-IsClosable sim.module_of.kind (env.perm n w.generator).1 w;
    cleanup_closes = λ sim w h. h;
  }

  -- Whatever simulations of the table `run` is given, in any mode, and whatever the network and the
  -- system answer, it leaves no process of Tor and no ICMP socket open that `Init` of a module has
  -- opened, if it finds none open.
  pub run-HasNoneOpen :
      (fast dry_run : Bool) (sims : List Simulation) (size : ℕ) (w : World G)
      → HasNoneOpen w
      → HasNoneOpen (run (table_modules env bind) fast dry_run sims size w).1
  run-HasNoneOpen fast dry_run sims size w =
      run-Closed (table_modules env bind) fast dry_run HasNoneOpen
        (λ sim v. IsClosable sim.module_of.kind v) table_modules-IsBalanced sims size w
