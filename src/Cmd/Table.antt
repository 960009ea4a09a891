-- ===== src/Cmd/Table.antt =====
-- The modules of the table in v2/cmd/run/run.go: their state, what they ask of the system and of the
-- network, and the methods `Hosts` and `HostMsg`, from package simulator or, by `CreateModule` of
-- v2/simulator/simulator.go, from package wisdom.
pub mod Methods
pub mod Targets
pub mod Held
use flightsim.Prelude.{◌<◌, ◌≡◌, ℕ, Bool, List, [], ◌∷◌, Option, none, some, ◌⊎◌, inl, inr, length}
use flightsim.Prelude.Bytes.{Bytes}
use flightsim.Cmd.Modules.{
  HostType, Kind, create_module, dga, port_scan, spambot, tunnel, tor, icmp_tunnel, oast,
  ssh_transfer, ssh_exfil, telegram_bot, cleartext,
}
use flightsim.Wisdom.{Item, Get, WisdomError, Reply, ok, err, wisdom_hosts}
use flightsim.Simulator.Dga.{dga_tlds, dga_hosts}
use flightsim.Simulator.Scan.{scan_ip_ranges, hosts_of_scan}
use flightsim.Simulator.Spambot.{popular_domains, spam_hosts}
use flightsim.Simulator.Connect.{BoundSimulator, GoError, Dialled}
use flightsim.Simulator.Miner.{Stratum}
use flightsim.Simulator.Irc.{Config, IrcError}
use flightsim.Simulator.Tor.{tor_hosts, hosts_of_tor, TorError, Started}
use flightsim.Simulator.Lookups.{tunnel_hosts, oast_hosts}
use flightsim.Simulator.IcmpTunnel.{icmp_hosts, IcmpError, IcmpNetwork, Listened}
use flightsim.Simulator.Telegram.{telegram_hosts, Got}
use flightsim.Simulator.Cleartext.{
  CleartextHosts, hosts_listed, lookup_error, index_panic, cleartext_hosts, CleartextSimulator,
  Peer,
}
use flightsim.Simulator.SshTransfer.{
  SshTransfer, ssh_host_msg, hosts, exfil_hosts, Simulated, worker, delivered,
}
use flightsim.Ssh.Result.{Error, Result}
use flightsim.Ssh.Client.{Client}
use flightsim.Ssh.Transfer.{u64, WriteResponse}
use flightsim.Ssh.Scope.{ScopeError}

-- A process or a socket that `Init` opens.
pub data HeldOpen : Type 0 where
  tor_process icmp_socket : ℕ → HeldOpen

-- The state of the modules. `generator` stands for all that is outside of them, the random generator
-- included. `bound` is the simulator that was initialised last: a round begins with `Init` of its
-- module. `held_open` is what `Init` has opened and nothing has closed
-- yet; a connection of a call of `Simulate` is not in it.
pub record World (G : Type 0) : Type 0 where
  pub generator : G
  pub bound : BoundSimulator
  pub cleartext : CleartextSimulator
  pub transfer : SshTransfer
  pub exfil : SshTransfer
  pub tor : Option ℕ
  pub icmp : Option ℕ
  pub held_open : List HeldOpen

-- What the network and the system answer to `Init` and `Simulate`. The numbers name processes and
-- sockets. `rand_read` reads from a new generator, `telegram_random` is a token made of one.
pub record Answers (E : Type 0) : Type 0 where
  pub dial : Bytes → Bytes → Dialled
  pub lookup_host : Option Bytes → Bytes → Option GoError
  pub lookups : Option Bytes → Bytes → List (Option GoError)
  pub stratum : Bytes → Bytes → Stratum
  pub peer : Bytes → Bytes → Peer
  pub rand_read : ℕ → Bytes
  pub irc_connect : Bytes → Config → Option GoError
  pub telegram_get : Bytes → Got E
  pub telegram_token : Bytes
  pub telegram_random : Bytes
  pub tor_start : Started ℕ E
  pub tor_dialer : ℕ → Option E
  pub tor_get : ℕ → Bytes → Option E
  pub icmp_listen : Bytes → Listened ℕ E
  pub icmp_network : Option ℕ → Bytes → IcmpNetwork E
  pub pid : ℕ
  pub signer_err : Option Error
  pub arrive : List WriteResponse → List WriteResponse

-- What the modules ask the system for: random numbers, the Wisdom API, and names. `advance` is the
-- state of the generator behind a call of `Hosts`, by its kind, scope and size, and `later` that behind
-- a call of `Simulate`, by its kind and host; `answers` is what the network answers in a state. `connect`
-- is what `NewClient` gives for a local address, a host and the name of a client, `fork` the generator
-- as the goroutine of a client finds it, and `respond` what that goroutine delivers for its number and
-- size. So no client panics, which would end the program: `responds` says that, for the sizes that fit
-- uint64.
pub record Environment (G E : Type 0) : Type 0 where
  pub perm : ℕ → G → List ℕ × G
  pub intn : G → ℕ → ℕ × G
  pub read_random : G → ℕ → Bytes × G
  pub advance : Kind → Bytes → ℕ → G → G
  pub get : List (Bytes × Bytes) → ℕ → Get E
  pub parse : Bytes → E ⊎ List Item
  pub shuffle : G → List Item → List Item
  pub lookup_mx : Bytes → List Bytes
  pub lookup_ip : E ⊎ List Bytes
  pub parse_size : Bytes → Option ℕ
  pub format_size : ℕ → Bytes → Bytes → Bool → Bytes
  pub answers : G → Answers E
  pub later : Kind → Bytes → G → G
  pub fork : G → ℕ → G
  pub connect : G → Bytes → Bytes → Bytes → Result Client
  pub respond : G → Bytes → Bytes → ℕ → ℕ → WriteResponse
  pub responds :
      (g : G) (src host : Bytes) (i size : ℕ)
      → size < u64
      → (worker read_random (fork g i) (connect g src host) i size).delivery
        ≡ delivered (respond g src host i size)

-- The errors of the methods. `no_address` stands for a panic, which `net.LookupIP` rules out: beside
-- no error it gives an address.
pub data ModuleError (E : Type 0) : Type 0 where
  of_wisdom : WisdomError E → ModuleError E
  of_scope : ScopeError → ModuleError E
  of_system : E → ModuleError E
  of_go : GoError → ModuleError E
  of_irc : IrcError → ModuleError E
  of_tor : TorError E → ModuleError E
  of_icmp : IcmpError E → ModuleError E
  of_ssh : Simulated → ModuleError E
  no_address : ModuleError E

abbrev pub Answer : Type 0 → Type 0
Answer E = List Bytes × Option (ModuleError E)

abbrev of_reply : {E : Type 0} → Reply E (List Bytes) → Answer E
of_reply (ok hosts) = (hosts, none)
of_reply (err e) = ([], some (of_wisdom e))

abbrev of_cleartext : {E : Type 0} → CleartextHosts E → Answer E
of_cleartext (hosts_listed hosts) = (hosts, none)
of_cleartext (lookup_error e) = ([], some (of_system e))
of_cleartext index_panic = ([], some no_address)

abbrev scope_error : {E : Type 0} → Option ScopeError → Option (ModuleError E)
scope_error none = none
scope_error (some e) = some (of_scope e)

module _ {G E : Type 0} (env : Environment G E) where
  -- The permutation of `n` numbers that a call of `Hosts` draws first, and the generator behind it.
  abbrev shuffled : {A : Type 0} → ℕ → (List ℕ → G → A) → G → A
  shuffled n next g = let (order, g') = env.perm n g in next order g'

  -- `Hosts` of a module, by its kind.
  unfoldable pub module_hosts : Kind → Bytes → ℕ → World G → Answer E × World G
  module_hosts (create_module category host_type simulator) scope size w = (
    of_reply
        (wisdom_hosts env.get env.parse (env.shuffle w.generator) category host_type scope size),
    record w {
      generator = env.advance (create_module category host_type simulator) scope size w.generator;
    },
  )
  module_hosts dga scope size w = (
    (shuffled (length dga_tlds) (λ order g. (dga_hosts env.intn order size g).0) w.generator, none),
    record w { generator = env.advance dga scope size w.generator },
  )
  module_hosts port_scan scope size w = (
    (
      shuffled (length scan_ip_ranges) (λ order g. hosts_of_scan env.read_random order size g)
          w.generator,
      none,
    ),
    record w { generator = env.advance port_scan scope size w.generator },
  )
  module_hosts spambot scope size w = (
    (
      shuffled (length popular_domains) (λ order g. spam_hosts env.lookup_mx order size)
          w.generator,
      none,
    ),
    record w { generator = env.advance spambot scope size w.generator },
  )
  module_hosts tunnel scope size w = ((tunnel_hosts, none), w)
  module_hosts tor scope size w = (
    (shuffled (length tor_hosts) (λ order g. hosts_of_tor order size) w.generator, none),
    record w { generator = env.advance tor scope size w.generator },
  )
  module_hosts icmp_tunnel scope size w = ((icmp_hosts, none), w)
  module_hosts oast scope size w = ((oast_hosts, none), w)
  module_hosts ssh_transfer scope size w =
      let (targets, e, s) = hosts env.parse_size scope size w.transfer in
      ((targets, scope_error e), record w { transfer = s })
  module_hosts ssh_exfil scope size w =
      let (place, g) = env.intn w.generator 4 in
      let (targets, e, s) = exfil_hosts env.parse_size place scope size w.exfil in
      ((targets, scope_error e), record w { generator = g; exfil = s })
  module_hosts telegram_bot scope size w = ((telegram_hosts, none), w)
  module_hosts cleartext scope size w = (of_cleartext (cleartext_hosts env.lookup_ip), w)

  -- The method `HostMsg` of a module, if it has one.
  abbrev pub module_host_msg : Kind → World G → Option (Bytes → Bytes)
  module_host_msg ssh_transfer w = some (ssh_host_msg env.format_size w.transfer)
  module_host_msg ssh_exfil w = some (ssh_host_msg env.format_size w.exfil)
  module_host_msg _ w = none
