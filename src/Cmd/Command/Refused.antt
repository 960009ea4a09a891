-- ===== src/Cmd/Command/Refused.antt =====
-- When the run command is refused, and a dry run of everything.
use flightsim.Prelude.{◌≡◌, ◌↔◌, ◌⊎◌, inl, inr, refl, ap, true, not, List, [], Option, All}
use flightsim.Prelude.Bytes.{Bytes, bytes_eq}
use flightsim.Utils.Net.{System, IpError, IpResult, usable, unusable, usable_ip}
use flightsim.Simulator.Connect.{BindAddr}
use flightsim.Cmd.Modules.{Module}
use flightsim.Cmd.Select.{Selection, selected, unknown_module, select_simulations, all_module_names}
use flightsim.Cmd.Select.Laws.{HasUnknown, select_simulations_unknown}
use flightsim.Cmd.Select.Default.{HasPlainName, all_module_names_selected}
use flightsim.Cmd.Run.{Modules}
use flightsim.Cmd.Run.Trace.{tally, is_simulated, is_waited}
use flightsim.Cmd.Run.Modes.{run_dry}
use flightsim.Cmd.Command.{
  Flags, Probe, no_such_module, Ran, names_to_run, start_run, after_selection, run_cmd, bytes_of,
  clamp,
}

IpResult-cases :
    {E : Type 0}
    → (r : IpResult E)
    → ((ip : Option Bytes) × (r ≡ usable ip)) ⊎ ((e : IpError E) × (r ≡ unusable e))
IpResult-cases (usable ip) = inl (ip, refl)
IpResult-cases (unusable e) = inr (e, refl)

Selection-cases :
    (s : Selection)
    → ((sims : _) × (s ≡ selected sims)) ⊎ ((name : Bytes) × (s ≡ unknown_module name))
Selection-cases (selected sims) = inl (sims, refl)
Selection-cases (unknown_module name) = inr (name, refl)

module _ {W E F : Type 0} (table : List Module) (modules : BindAddr → Modules W F)
    (ip_string : Bytes → Bytes) (probe : Probe E) (flags : Flags) (system : System E) (w : W) where
  selection_refused :
      (bind : BindAddr) (s : Selection) (name : Bytes)
      → (after_selection table modules ip_string probe flags bind w s ≡ inl (no_such_module name))
        ↔ (s ≡ unknown_module name)
  selection_refused bind (selected sims) name = (λ h. absurd (cc h), λ h. absurd (cc h))
  selection_refused bind (unknown_module n) name = (
    λ h. let e : n ≡ name = cc h in ap unknown_module e,
    λ h. let e : n ≡ name = cc h in rw e refl,
  )

  -- The command is refused for the name of a module exactly if there is an address to bind to, and
  -- one of the arguments, or of the names offered if there are none, chooses no module.
  pub run_cmd_refused :
      ((name : Bytes) × (run_cmd table modules ip_string probe flags system w
          ≡ inl (no_such_module name)))
      ↔ (((ip : Option Bytes) × (usable_ip system flags.iface_name ≡ usable ip))
          × HasUnknown (names_to_run table flags.args) table)
  unfolding run_cmd
  run_cmd_refused = elim (IpResult-cases (usable_ip system flags.iface_name)) [
    | inr (e, failed) ↦ (λ h. absurd (cc (rw failed at h.1)), λ h. absurd (cc (failed, h.0.1)))
    | inl (ip, up) ↦
        let bind : BindAddr = record {
          addr = bytes_of ip;
          user_set = not (bytes_eq flags.iface_name []);
        } in
        let names = names_to_run table flags.args in
        let refused = selection_refused bind (select_simulations table names) in
        let unknown = select_simulations_unknown table names in
        (
          λ (name, h). ((ip, up), unknown.0 (name, (refused name).0 (rw up at h))),
          λ (_, bad). let (name, e) = unknown.1 bad in (name, rw up ((refused name).1 e)),
        )
  ]

  -- The command is not refused exactly if there is an address to bind to, and each argument, or each
  -- of the names offered if there are none, chooses a module.
  pub run_cmd_accepted :
      ((ran : Ran W F) × (run_cmd table modules ip_string probe flags system w ≡ inr ran)) ↔ (
        ((ip : Option Bytes) × (usable_ip system flags.iface_name ≡ usable ip))
        × (HasUnknown (names_to_run table flags.args) table → ⊥))
  unfolding run_cmd
  run_cmd_accepted = elim (IpResult-cases (usable_ip system flags.iface_name)) [
    | inr (e, failed) ↦ (λ h. absurd (cc (rw failed at h.1)), λ h. absurd (cc (failed, h.0.1)))
    | inl (ip, up) ↦
        let names = names_to_run table flags.args in
        let bind : BindAddr = record {
          addr = bytes_of ip;
          user_set = not (bytes_eq flags.iface_name []);
        } in
        elim (Selection-cases (select_simulations table names)) [
          | inl (sims, e) ↦ (
            λ h. (
              (ip, up),
              λ bad.
                  let (name, unknown) = (select_simulations_unknown table names).1 bad in
                  cc (e, unknown),
            ),
            λ h. (start_run table modules ip_string probe flags bind sims w, rw (up, e) refl),
          )
          | inr (name, e) ↦ (
            λ h. absurd (cc (rw (up, e) at h.1)),
            λ (_, known). absurd (known ((select_simulations_unknown table names).0 (name, e))),
          )
        ]
  ]

  -- A dry run without arguments, for a table in which no module's name holds a colon, is not refused if
  -- there is an address to bind to. It calls `Simulate` of no module and waits for nothing.
  pub run_cmd_dry :
      (ip : Option Bytes)
      → All HasPlainName table
      → flags.args ≡ []
      → flags.dry_run ≡ true
      → usable_ip system flags.iface_name ≡ usable ip
      → (ran : Ran W F) × (run_cmd table modules ip_string probe flags system w ≡ inr ran)
        × (tally is_simulated ran.events ≡ 0)
        × (tally is_waited ran.events ≡ 0)
  unfolding run_cmd
  run_cmd_dry ip plain no_args dry up =
      elim (Selection-cases (select_simulations table (all_module_names table))) [
        | inl (sims, e) ↦
            let bind : BindAddr = record {
              addr = bytes_of ip;
              user_set = not (bytes_eq flags.iface_name []);
            } in
            let (_, quiet, still) = run_dry (modules bind) flags.fast sims (clamp flags.size) w in
            (
              start_run table modules ip_string probe flags bind sims w,
              rw (up, no_args, e) refl,
              rw dry quiet,
              rw dry still,
            )
        | inr (name, e) ↦ absurd (all_module_names_selected table name plain e)
      ]
