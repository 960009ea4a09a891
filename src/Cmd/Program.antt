-- ===== src/Cmd/Program.antt =====
-- The program as a whole: v2/main.go with the get command of v2/cmd/get/get.go over v2/wisdom/wisdom.go,
-- and the run command of v2/cmd/run/run.go over its table of modules; the texts of their errors.
pub mod Exits
use flightsim.Prelude.{ℕ, List, [], ◌∷◌, ◌++◌, Option, none, some, ◌⊎◌, inl, inr}
use flightsim.Prelude.Bytes.{Bytes, codes, itoa}
use flightsim.Prelude.Text.{join}
use flightsim.Utils.Net.{System, IpError, system_error, no_addresses, missing_port}
use flightsim.Wisdom.{WisdomError, transport, read_body, parse_body, said, Reply, ok, err, families}
use flightsim.Cmd.Modules.{all_modules}
use flightsim.Cmd.Get.{
  supported_elements, supported_categories, GetError, nothing_to_get, invalid_format,
  unsupported_element, families_failed, run_get,
}
use flightsim.Cmd.Table.{World, Environment, ModuleError}
use flightsim.Cmd.Table.Methods.{table_modules}
use flightsim.Cmd.Command.{
  Flags, Probe, RunError, no_usable_ip, no_such_module, Ran, run_cmd, Finish, Called, main,
}

-- What the libraries give: the three flag parsers, each with what it reads or the status with which it
-- exits, the texts of their errors and of an address without a
-- port, and the families in the body of an answer.
pub record Libraries (E : Type 0) : Type 0 where
  pub root_flags : List Bytes → ℕ ⊎ List Bytes
  pub run_flags : List Bytes → ℕ ⊎ Flags
  pub get_arg : List Bytes → ℕ ⊎ Bytes
  pub text : E → Bytes
  pub no_port_text : Bytes
  pub ip_string : Bytes → Bytes
  pub parse_families : Bytes → E ⊎ List Bytes

abbrev pub reply_of : {E A : Type 0} → Reply E A → WisdomError E ⊎ A
reply_of (ok a) = inr a
reply_of (err e) = inl e

-- The usage of the get command, with its elements and categories.
unfoldable pub get_usage : Bytes
get_usage = join (10 ∷ []) (
    codes "usage: flightsim get [flags] element:category"
    ∷ []
    ∷ codes "Available elements:"
    ∷ []
    ∷ (9 ∷ join (codes ", ") supported_elements)
    ∷ []
    ∷ codes "Available categories:"
    ∷ []
    ∷ (9 ∷ join (codes ", ") supported_categories)
    ∷ []
    ∷ codes "Available flags:"
    ∷ []
    ∷ [])

module _ {E : Type 0} (lib : Libraries E) where
  abbrev pub wisdom_text : WisdomError E → Bytes
  wisdom_text (transport e) = lib.text e
  wisdom_text (read_body e) = codes "api.open.wisdom.alphasoc.net read body error: " ++ lib.text e
  wisdom_text (parse_body e) = codes "api.open.wisdom.alphasoc.net parse body error: " ++ lib.text e
  wisdom_text (said code body) =
      codes "api.open.wisdom.alphasoc.net said: " ++ (itoa code ++ (codes ": " ++ body))

  abbrev pub get_text : GetError (WisdomError E) → Bytes
  get_text nothing_to_get = codes "nothing to get" ++ (10 ∷ 10 ∷ get_usage)
  get_text (invalid_format to_get) =
      codes "unable to get '" ++ (to_get ++ codes "': invalid format")
  get_text (unsupported_element to_get elem) =
      codes "unable to get '"
      ++ (to_get ++ (codes "': unsupported element '" ++ (elem ++ codes "'")))
  get_text (families_failed e) = wisdom_text e

  abbrev pub ip_text : IpError E → Bytes
  ip_text (system_error e) = lib.text e
  ip_text no_addresses = codes "no IP addresses found"
  ip_text missing_port = lib.no_port_text

  abbrev pub run_text : RunError E → Bytes
  run_text (no_usable_ip iface_name e) =
      codes "Unable to determine usable IP address for '"
      ++ (iface_name ++ (codes "': " ++ ip_text e))
  run_text (no_such_module name) = codes "unknown module: " ++ name

  abbrev pub get_error : Option (GetError (WisdomError E)) → Option Bytes
  get_error none = none
  get_error (some e) = some (get_text e)

  abbrev pub run_error : {W F : Type 0} → RunError E ⊎ Ran W F → Option Bytes
  run_error (inl e) = some (run_text e)
  run_error (inr ran) = none

  module _ {G : Type 0} (env : Environment G E) (system : System E) (probe : Probe E)
      (version : Bytes) (w : World G) where
    -- The families of a category, as the get command asks for them.
    abbrev pub families_of : Bytes → WisdomError E ⊎ List Bytes
    families_of category = reply_of (families env.get lib.parse_families category)

    abbrev pub after_get_flags : ℕ ⊎ Bytes → Called
    after_get_flags (inl status) = inl status
    after_get_flags (inr to_get) = inr (get_error (run_get families_of to_get).1)

    abbrev pub get_cmd : List Bytes → Called
    get_cmd args = after_get_flags (lib.get_arg args)

    abbrev pub ran_table : Flags → RunError E ⊎ Ran (World G) (ModuleError E)
    ran_table flags = run_cmd all_modules (table_modules env) lib.ip_string probe flags system w

    abbrev pub after_run_flags : ℕ ⊎ Flags → Called
    after_run_flags (inl status) = inl status
    after_run_flags (inr flags) = inr (run_error (ran_table flags))

    -- `main`, by the program's arguments: how the program ends, if no client panics.
    unfoldable pub program : List Bytes → Finish
    program args =
        main version get_cmd (λ run_args. after_run_flags (lib.run_flags run_args)) lib.root_flags
          args
