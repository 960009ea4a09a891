-- ===== src/Simulator/SshTransfer.antt =====
-- v2/simulator/ssh-transfer.go and v2/simulator/ssh-exfil.go: a file transfer by up to two SFTP
-- clients at a time. `bytesize.Parse` and the connection itself are parameters.
pub mod Schedule
pub mod Collect
pub mod Steps
pub mod Interleaved
pub mod Concurrent
pub mod Served
pub mod Outcomes
use flightsim.Prelude.{
  ℕ, suc, ◌+◌, ◌*◌, ◌%◌, ◌^◌, List, [], ◌∷◌, ◌++◌, Option, none, some, Bool, false, not, ◌==◌,
  if◌then◌else◌, get_or,
}
use flightsim.Prelude.Bytes.{Bytes, codes, itoa}
use flightsim.Utils.Conn.{compute_sender_sizes}
use flightsim.Ssh.Fxp.Packets.{Version}
use flightsim.Ssh.Result.{Error, version_mismatch, Result, ok, err, panic}
use flightsim.Ssh.Client.{Client, client_ver, send_init}
use flightsim.Ssh.Scope.{ScopeError, Scope, parse_scope}
use flightsim.Ssh.Transfer.{u64, WriteResponse, Outcome, done, crashed, out_of_fuel, write_random}

-- `bytesize.MB`
abbrev pub mb : ℕ
mb = 1024 * 1024

pub record SshTransfer : Type 0 where
  pub src : Bytes
  pub send_size : ℕ

abbrev pub new_ssh_transfer : SshTransfer
new_ssh_transfer = record { src = []; send_size = 0 }

abbrev pub default_send_size : ℕ
default_send_size = 200 * mb

abbrev pub default_target_hosts : List Bytes
default_target_hosts = codes "ssh.sandbox-services.alphasoc.xyz:22" ∷ []

abbrev pub init : Bytes → SshTransfer → SshTransfer
init addr s = record s { src = addr }

-- `HostMsg`; `format` is the method `Format` of bytesize, with its format, unit and the flag of long
-- units.
unfoldable pub ssh_host_msg : (ℕ → Bytes → Bytes → Bool → Bytes) → SshTransfer → Bytes → Bytes
ssh_host_msg format s host =
    codes "Simulating an SSH/SFTP file transfer of "
    ++ (format s.send_size (codes "%.0f") (codes "B") false
        ++ (codes " (" ++ (format s.send_size (codes "%.2f") [] false ++ (codes ") to " ++ host))))

-- The end of `Hosts`: the send size is set only if the scope was parsed.
abbrev pub hosts_of :
    Scope → Option ScopeError → SshTransfer → List Bytes × Option ScopeError × SshTransfer
hosts_of scope (some e) s = (scope.targets, some e, s)
hosts_of scope none s = (scope.targets, none, record s { send_size = scope.send_size })

unfoldable pub hosts :
    (Bytes → Option ℕ) → Bytes → ℕ → SshTransfer → List Bytes × Option ScopeError × SshTransfer
hosts parse_size scope size s =
    let parsed = parse_scope parse_size scope default_target_hosts default_send_size in
    hosts_of parsed parsed.err s

abbrev pub exfil_ports : List Bytes
exfil_ports = codes "443" ∷ codes "465" ∷ codes "993" ∷ codes "995" ∷ []

-- `SSHExfil.defaultTargetHosts`, with the result of `rand.Intn(len(ports))`
abbrev pub exfil_target_hosts : ℕ → List Bytes
exfil_target_hosts pos =
    (codes "ssh.sandbox-services.alphasoc.xyz:" ++ get_or exfil_ports pos []) ∷ []

unfoldable pub exfil_hosts :
    (Bytes → Option ℕ) → ℕ → Bytes → ℕ → SshTransfer → List Bytes × Option ScopeError × SshTransfer
exfil_hosts parse_size pos scope size s =
    let parsed = parse_scope parse_size scope (exfil_target_hosts pos) default_send_size in
    hosts_of parsed parsed.err s

-- `newClient`: a client ready for transfers, and how often its connection was torn down.
pub record Connection : Type 0 where
  pub client : Result Client
  pub teardowns : ℕ

abbrev pub started : Result Version × Client → Connection
started (err e, c) = record { client = err e; teardowns = 1 }
started (panic, c) = record { client = panic; teardowns = 0 }
started (ok v, c) =
    if not (v.version == client_ver)
    then record { client = err (version_mismatch v.version); teardowns = 1 }
    else record { client = ok c; teardowns = 0 }

-- The argument is the result of `simssh.NewClient`.
unfoldable pub new_client : Result Client → Connection
new_client (err e) = record { client = err e; teardowns = 0 }
new_client panic = record { client = panic; teardowns = 0 }
new_client (ok c) = started (send_init c)

-- What a goroutine puts into the channel; `killed` is a panic, which ends the program, and
-- `unfinished` a transfer that ran out of fuel, which none does (Ssh.Transfer.Complete).
pub data Delivery : Type 0 where
  delivered : WriteResponse → Delivery
  killed unfinished : Delivery

pub record Worker : Type 0 where
  pub delivery : Delivery
  pub teardowns : ℕ

abbrev pub written : ℕ → Outcome → Worker
written torn (done resp c) = record { delivery = delivered resp; teardowns = torn + 1 }
written torn crashed = record { delivery = killed; teardowns = torn }
written torn out_of_fuel = record { delivery = unfinished; teardowns = torn }

-- `simulate`, with the result of `newClient`. Its last steps are `WriteRandom` and `Teardown`.
unfoldable pub simulate_client :
    {G : Type 0} (read_random : G → ℕ → Bytes × G) (gen : G) (client_name handle : Bytes) (size : ℕ)
    → Result Client
    → ℕ
    → Worker
simulate_client read_random gen client_name handle size (ok c) torn =
    written torn (write_random read_random handle size gen c)
simulate_client read_random gen client_name handle size (err e) torn = record {
  delivery =
      delivered (record { client_name = client_name; bytes_sent = 0; handle = []; err = some e });
  teardowns = torn;
}
simulate_client read_random gen client_name handle size panic torn = record {
  delivery = killed;
  teardowns = torn;
}

-- The goroutine of `go s.simulate(…)` for client `i`.
unfoldable pub worker :
    {G : Type 0} (read_random : G → ℕ → Bytes × G) (gen : G) (connect : Bytes → Result Client)
    (i size : ℕ)
    → Worker
worker read_random gen connect i size =
    let client_name = codes "alphasoc-" ++ itoa i in
    let handle = codes "flightsim-ssh-transfer-" ++ itoa i in
    let connection = new_client (connect client_name) in
    simulate_client read_random gen client_name handle size connection.client connection.teardowns

-- The loop over the channel: the errors, each with its client's name, and the sum of the bytes sent.
unfoldable pub collect : List WriteResponse → List (Bytes × Error) → ℕ → List (Bytes × Error) × ℕ
collect [] errs total = (errs, total)
collect (r ∷ rs) errs total =
    collect rs (elim r.err [ some e ↦ errs ++ ((r.client_name, e) ∷ []) | none ↦ errs ])
      ((total + r.bytes_sent) % u64)

pub data Simulated : Type 0 where
  success : Simulated
  auth_failed : Error → Simulated
  invalid_send_size : Simulated
  errors_encountered : ℕ → List (Bytes × Error) → Simulated
  unsplit : Simulated

-- The responses of the clients from number `i` on, for the list of their send sizes.
unfoldable pub responses : (ℕ → ℕ → WriteResponse) → ℕ → List ℕ → List WriteResponse
responses respond i [] = []
responses respond i (size ∷ sizes) = respond i size ∷ responses respond (suc i) sizes

abbrev pub summarise : List (Bytes × Error) × ℕ → Simulated
summarise ([], total) = success
summarise (e ∷ es, total) = errors_encountered total (e ∷ es)

abbrev gathered :
    (ℕ → ℕ → WriteResponse)
    → (List WriteResponse → List WriteResponse)
    → Option (List ℕ)
    → Simulated
gathered respond arrive none = unsplit
gathered respond arrive (some sizes) = summarise (collect (arrive (responses respond 0 sizes)) [] 0)

-- `Simulate` where each goroutine delivers a response: `respond` says which, and `arrive` puts the
-- responses into the order in which they come over the channel. `unsplit` would be a loop of
-- `ComputeSenderSizes` without an end.
unfoldable pub simulate :
    Option Error
    → (ℕ → ℕ → WriteResponse)
    → (List WriteResponse → List WriteResponse)
    → SshTransfer
    → Simulated
unfolding collect responses
simulate (some e) respond arrive s = auth_failed e
simulate none respond arrive s =
    if s.send_size == 0
    then invalid_send_size
    else gathered respond arrive (compute_sender_sizes 2 s.send_size mb)
