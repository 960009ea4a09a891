-- ===== src/Cmd/Command.antt =====
-- `RunCmd` and `getDefaultDNSIntf` of v2/cmd/run/run.go, and the choice of the command in v2/main.go.
-- The flag parser is a parameter, by the values it gives.
pub mod Refused
use flightsim.Prelude.{
  ℕ, Bool, true, false, not, List, [], ◌∷◌, ◌++◌, Option, none, some, ◌⊎◌, inl, inr, length, ◌==◌,
  if◌then◌else◌,
}
use flightsim.Prelude.Bytes.{Bytes, bytes_eq, codes}
use flightsim.Net.{split_host_port}
use flightsim.Utils.Net.{System, IpError, IpResult, usable, unusable, usable_ip}
use flightsim.Wisdom.{ℤ, pos, negsuc}
use flightsim.Simulator.Connect.{BindAddr}
use flightsim.Cmd.Modules.{Module, all_modules}
use flightsim.Cmd.Select.{
  all_module_names, Simulation, Selection, selected, unknown_module, select_simulations,
}
use flightsim.Cmd.Run.{Modules, Event, run}

-- What the flag parser leaves: the flags and the other arguments.
pub record Flags : Type 0 where
  pub fast : Bool
  pub dry_run : Bool
  pub iface_name : Bytes
  pub size : ℤ
  pub args : List Bytes

-- `if *size < 0 { *size = 0 }`
abbrev pub clamp : ℤ → ℕ
clamp (pos n) = n
clamp (negsuc n) = 0

-- What the probe of `getDefaultDNSIntf` meets: whether the lookup has an error, the address that was
-- dialled for it, and the local address of the UDP connection.
pub record Probe (E : Type 0) : Type 0 where
  pub lookup_err : Option E
  pub default_dns_server : Bytes
  pub local_addr : Bytes → E ⊎ Bytes

abbrev pub dns_intf_of : Option (Bytes × Bytes) → Bytes
dns_intf_of none = []
dns_intf_of (some (dns_intf_ip, port)) = dns_intf_ip

abbrev pub after_udp_dial : {E : Type 0} → E ⊎ Bytes → Bytes
after_udp_dial (inl e) = []
after_udp_dial (inr address) = dns_intf_of (split_host_port address)

abbrev pub after_dns_lookup : {E : Type 0} → Probe E → Option E → Bytes
after_dns_lookup p (some e) = []
after_dns_lookup p none =
    if bytes_eq p.default_dns_server []
    then []
    else after_udp_dial (p.local_addr p.default_dns_server)

unfoldable pub default_dns_intf : {E : Type 0} → Probe E → Bytes
default_dns_intf p = after_dns_lookup p p.lookup_err

pub data RunError (E : Type 0) : Type 0 where
  no_usable_ip : Bytes → IpError E → RunError E
  no_such_module : Bytes → RunError E

-- The two addresses of the welcome, and what `run` does.
pub record Ran (W F : Type 0) : Type 0 where
  pub ip_interface : Bytes
  pub dns_interface : Bytes
  pub events : List (Event F)
  pub world : W

abbrev pub bytes_of : Option Bytes → Bytes
bytes_of none = []
bytes_of (some ip) = ip

-- The names asked for, or all that are offered.
abbrev pub names_to_run : List Module → List Bytes → List Bytes
names_to_run table [] = all_module_names table
names_to_run table (name ∷ names) = name ∷ names

module _ {W E F : Type 0} (table : List Module) (modules : BindAddr → Modules W F)
    (ip_string : Bytes → Bytes) (probe : Probe E) (flags : Flags) where
  -- The beginning of `run`, and its loop.
  abbrev pub start_run : BindAddr → List Simulation → W → Ran W F
  start_run bind sims w =
      let (events, w') = run (modules bind) flags.fast flags.dry_run sims (clamp flags.size) w in
      record {
        ip_interface = ip_string bind.addr;
        dns_interface = if bind.user_set then ip_string bind.addr else default_dns_intf probe;
        events = events;
        world = w';
      }

  abbrev pub after_selection : BindAddr → W → Selection → RunError E ⊎ Ran W F
  after_selection bind w (unknown_module name) = inl (no_such_module name)
  after_selection bind w (selected sims) = inr (start_run bind sims w)

  abbrev pub after_usable_ip : W → IpResult E → RunError E ⊎ Ran W F
  after_usable_ip w (unusable e) = inl (no_usable_ip flags.iface_name e)
  after_usable_ip w (usable ip) =
      let bind : BindAddr = record {
        addr = bytes_of ip;
        user_set = not (bytes_eq flags.iface_name []);
      } in
      after_selection bind w (select_simulations table (names_to_run table flags.args))

  -- `RunCmd`, with its `allModules` as the parameter `table`.
  unfoldable pub run_cmd : System E → W → RunError E ⊎ Ran W F
  run_cmd system w = after_usable_ip w (usable_ip system flags.iface_name)

-- How `main` ends: without an error, behind the text of `version`, with the exit status 1 behind the
-- usage or the text of an error, or by a flag parser, which exits with a status of its own (0 if the
-- help is asked for).
pub data Finish : Type 0 where
  succeeded : Finish
  version_printed : Bytes → Finish
  usage_printed : Finish
  error_printed : Bytes → Finish
  parser_exited : ℕ → Finish

abbrev pub exit_status : Finish → ℕ
exit_status succeeded = 0
exit_status (version_printed text) = 0
exit_status usage_printed = 1
exit_status (error_printed text) = 1
exit_status (parser_exited status) = status

-- How a command ends: its flag parser exits with a status, or it returns an error's text or none.
abbrev pub Called : Type 0
Called = ℕ ⊎ Option Bytes

-- `if err != nil`
abbrev pub finish : Called → Finish
finish (inl status) = parser_exited status
finish (inr none) = succeeded
finish (inr (some text)) = error_printed text

module _ (version : Bytes) (get_cmd run_args : List Bytes → Called) where
  abbrev pub dispatch : Bytes → List Bytes → Finish
  dispatch cmd args =
      if bytes_eq cmd (codes "get")
      then finish (get_cmd args)
      else if bytes_eq cmd (codes "run")
      then finish (run_args args)
      else if bytes_eq cmd (codes "version")
      then version_printed (codes "flightsim version " ++ version)
      else finish (inr (some (codes "invalid command: " ++ cmd)))

  -- What `main` does behind its flag parser, with the arguments that are left.
  abbrev pub after_flags : ℕ ⊎ List Bytes → Finish
  after_flags (inl status) = parser_exited status
  after_flags (inr []) = usage_printed
  after_flags (inr (cmd ∷ args)) = dispatch cmd args

  -- `main`, by its flag parser.
  unfoldable pub main : (List Bytes → ℕ ⊎ List Bytes) → List Bytes → Finish
  main parse os_args = after_flags (parse os_args)
