-- ===== src/Cmd/Modules.antt =====
-- The table of modules of v2/cmd/run/run.go, and the text that announces a host.
use flightsim.Prelude.{
  ℕ, ◌*◌, Bool, true, false, List, [], ◌∷◌, ◌++◌, Option, none, some, if◌then◌else◌,
}
use flightsim.Prelude.Bytes.{Bytes, codes, bytes_eq}
use flightsim.Net.{split_host_port}

pub data Pipeline : Type 0 where
  dns ip : Pipeline

-- The value of the field `Module`: a host source of package wisdom with a simulator, or a module of
-- package simulator.
pub data HostType : Type 0 where
  type_dns type_ip : HostType

pub data BaseSimulator : Type 0 where
  dns_resolve tcp_connect stratum_miner irc_client : BaseSimulator

pub data Kind : Type 0 where
  create_module : Bytes → HostType → BaseSimulator → Kind
  dga port_scan spambot tunnel tor icmp_tunnel oast ssh_transfer ssh_exfil telegram_bot cleartext :
      Kind

-- `timeout` is in seconds.
pub record Module : Type 0 where
  pub kind : Kind
  pub name : Bytes
  pub pipeline : Pipeline
  pub experimental : Bool
  pub num_of_hosts : ℕ
  pub header_msg : Bytes
  pub host_msg : Bytes
  pub timeout : ℕ
  pub success_msg : Bytes
  pub fast : Bool

-- A module with Go's zero values in the fields that a literal leaves out.
abbrev pub entry : Kind → Bytes → Pipeline → Module
entry kind name pipeline = record {
  kind = kind;
  name = name;
  pipeline = pipeline;
  experimental = false;
  num_of_hosts = 0;
  header_msg = [];
  host_msg = [];
  timeout = 0;
  success_msg = [];
  fast = false;
}

unfoldable pub all_modules : List Module
all_modules =
    record (entry (create_module (codes "c2") type_dns dns_resolve) (codes "c2") dns) {
      num_of_hosts = 5;
      header_msg = codes "Preparing a random sample of C2 domains";
      timeout = 1;
    }
    ∷ record (entry (create_module (codes "c2") type_ip tcp_connect) (codes "c2") ip) {
      num_of_hosts = 5;
      header_msg = codes "Preparing a random sample of C2 IP:port pairs";
      timeout = 1;
    }
    ∷ record (entry dga (codes "dga") dns) {
      num_of_hosts = 15;
      header_msg = codes "Generating a list of DGA domains";
      timeout = 1;
    }
    ∷ record (entry port_scan (codes "scan") ip) {
      num_of_hosts = 10;
      header_msg = codes "Preparing a random sample of RFC 5737 destinations";
      host_msg = codes "Port scanning %s";
      timeout = 3;
    }
    ∷ record (entry (create_module (codes "sinkholed") type_dns dns_resolve) (codes "sink") dns) {
      num_of_hosts = 5;
      header_msg = codes "Preparing a random sample of sinkholed domains";
      timeout = 1;
    }
    ∷ record (entry (create_module (codes "sinkholed") type_ip tcp_connect) (codes "sink") ip) {
      num_of_hosts = 5;
      header_msg = codes "Preparing a random sample of sinkholed IP:port pairs";
      timeout = 1;
    }
    ∷ record (entry spambot (codes "spambot") ip) {
      num_of_hosts = 10;
      header_msg = codes "Preparing a random sample of Internet mail servers";
      timeout = 1;
    }
    ∷ record (entry tunnel (codes "tunnel-dns") dns) {
      host_msg = codes "Simulating DNS tunneling via *.%s";
      timeout = 10;
    }
    ∷ record (entry (create_module (codes "cryptomining") type_ip stratum_miner) (codes "miner")
        ip) {
          num_of_hosts = 5;
          header_msg = codes "Preparing a random sample of cryptomining IP:port pairs";
          timeout = 1;
        }
    ∷ record (entry tor (codes "tor") dns) {
      experimental = true;
      num_of_hosts = 5;
      header_msg = codes "Preparing Tor connection";
      host_msg = codes "Connecting to %s";
      timeout = 10;
      success_msg = codes "Tor use is permitted in this environment";
    }
    ∷ record (entry icmp_tunnel (codes "tunnel-icmp") dns) {
      num_of_hosts = 1;
      host_msg = codes "Simulating ICMP tunneling via %s";
      timeout = 20;
    }
    ∷ record (entry (create_module (codes "imposter") type_dns dns_resolve) (codes "imposter")
        dns) {
          num_of_hosts = 5;
          header_msg = codes "Resolving random imposter domains";
          timeout = 1;
        }
    ∷ record (entry oast (codes "oast") dns) {
      num_of_hosts = 1;
      header_msg = codes "Preparing to simulate OAST traffic";
      timeout = 3;
    }
    ∷ record (entry ssh_transfer (codes "ssh-transfer") ip) {
      header_msg = codes "Preparing to send randomly generated data to a standard SSH port";
      timeout = 5 * 60;
      fast = true;
    }
    ∷ record (entry ssh_exfil (codes "ssh-exfil") ip) {
      header_msg = codes "Preparing to send randomly generated data to a non-standard SSH port";
      timeout = 5 * 60;
      fast = true;
    }
    ∷ record (entry (create_module (codes "irc") type_dns irc_client) (codes "irc") dns) {
      num_of_hosts = 5;
      header_msg = codes "Preparing a random sample of IRC server domains";
      host_msg = codes "Simulating IRC traffic to %s";
      timeout = 5;
      fast = true;
    }
    ∷ record (entry (create_module (codes "irc") type_ip irc_client) (codes "irc") ip) {
      num_of_hosts = 5;
      header_msg = codes "Preparing a random sample of IRC server IP:port pairs";
      host_msg = codes "Simulating IRC traffic to %s";
      timeout = 5;
      fast = true;
    }
    ∷ record (entry telegram_bot (codes "telegram-bot") dns) {
      header_msg = codes "Preparing to simulate Telegram bot traffic";
      host_msg = codes "Simulating Telegram Bot API traffic to %s";
      timeout = 3;
    }
    ∷ record (entry cleartext (codes "cleartext") ip) {
      header_msg = codes "Preparing to simulate cleartext protocol traffic";
      host_msg = codes "Sending random data to %s";
      timeout = 3;
    }
    ∷ []

-- `fmt.Sprintf(f, host)` for an `f` with one verb, `%s`.
unfoldable pub sprintf_host : Bytes → Bytes → Bytes
sprintf_host [] host = []
sprintf_host (x ∷ []) host = x ∷ []
sprintf_host (x ∷ y ∷ f) host =
    let rest = x ∷ sprintf_host (y ∷ f) host in
    if bytes_eq (x ∷ y ∷ []) (codes "%s") then host ++ f else rest

abbrev host_of_dns : Bytes → Option (Bytes × Bytes) → Bytes
host_of_dns host none = host
host_of_dns host (some (h, port)) = if bytes_eq h [] then host else h

abbrev default_host_msg : Pipeline → Bytes
default_host_msg dns = codes "Resolving %s"
default_host_msg ip = codes "Connecting to %s"

abbrev shown_host : Pipeline → Bytes → Bytes
shown_host dns host = host_of_dns host (split_host_port host)
shown_host ip host = host

abbrev formatted : Module → Option (Bytes → Bytes) → Bytes → Bytes
formatted m (some host_msg) host = host_msg host
formatted m none host =
    sprintf_host (if bytes_eq m.host_msg [] then default_host_msg m.pipeline else m.host_msg) host

-- `FormatHost`; `formatter` is the method `HostMsg`, if the module has it.
unfoldable pub format_host : Option (Bytes → Bytes) → Module → Bytes → Bytes
format_host formatter m host = formatted m formatter (shown_host m.pipeline host)
