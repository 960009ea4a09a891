-- ===== src/Tests/Served.antt =====
-- A transfer of five bytes over a server that answers as the protocol wants.
use flightsim.Prelude.{
  ◌+◌, ◌≤◌, ◌≡◌, ◌⊎◌, refl, some, [], ◌∷◌, ◌++◌, false, ℕ, length, replicate, arith,
}
use flightsim.Prelude.Bytes.{Bytes, codes, itoa, are_bytes-All}
use flightsim.Utils.Conn.{compute_sender_sizes, sizes_loop, compute_senders}
use flightsim.Utils.Marshal.{marshal_uint32, marshal_string}
use flightsim.Ssh.Fxp.Packets.{
  Version, Status, Handle, status_pkt, handle_pkt, version_pkt, marshal, marshal_status,
  marshal_handle, marshal_version,
}
use flightsim.Ssh.Packet.Frames.{IsFramed, frame}
use flightsim.Ssh.Result.{eof, Result, ok}
use flightsim.Ssh.Client.{Client}
use flightsim.Ssh.Transfer.Server.{IsGrant, replies, client_of}
use flightsim.Simulator.SshTransfer.{SshTransfer, mb, success}
use flightsim.Simulator.SshTransfer.Schedule.{
  goroutines, Transfers, started_with, Turn, begin, summary,
}
use flightsim.Simulator.SshTransfer.Served.{Serves, simulate_succeeds}

abbrev sevens : ℕ → ℕ → Bytes × ℕ
sevens g n = (replicate n 7, g + n)

abbrev v3 : Version
v3 = record { version = 3 }

abbrev file_handle : Handle
file_handle = record { id = 1; handle = codes "h" }

abbrev granted : Status
granted = record { id = 1; err_code = 0; err_msg = []; lang = codes "en" }

v3-IsFramed : IsFramed (version_pkt v3)
unfolding marshal marshal_version marshal_uint32
v3-IsFramed = omega arith

file_handle-IsFramed : IsFramed (handle_pkt file_handle)
unfolding marshal marshal_handle marshal_uint32 marshal_string
file_handle-IsFramed = omega arith

granted-IsFramed : IsFramed (status_pkt granted)
unfolding marshal marshal_status marshal_uint32 marshal_string
granted-IsFramed = omega arith

granted-IsGrant : IsGrant granted
granted-IsGrant = (
  refl,
  (omega arith, omega arith, (omega arith, tt), (omega arith, are_bytes-All (codes "en") refl)),
  granted-IsFramed,
)

-- Every client finds a server that has the answers to a transfer of up to a megabyte to say.
abbrev good_server : Bytes → Result Client
good_server name = ok (
    client_of name []
      (frame (version_pkt v3)
        ++ (frame (handle_pkt file_handle) ++ (replies (granted ∷ granted ∷ []) ++ [])))
      eof)

good_server-Serves : (name : Bytes) → Serves name 5 (good_server name)
good_server-Serves name = record {
  version = v3;
  handle = file_handle;
  statuses = granted ∷ granted ∷ [];
  rest = [];
  ending = eof;
  expected = refl;
  version_reply = omega arith;
  version_framed = v3-IsFramed;
  handle_reply = (omega arith, (omega arith, are_bytes-All (codes "h") refl));
  handle_framed = file_handle-IsFramed;
  enough = omega arith;
  granted = (granted-IsGrant, (granted-IsGrant, tt));
  connection = refl;
}

abbrev five_bytes : SshTransfer
five_bytes = record { src = []; send_size = 5 }

five_parts : compute_sender_sizes 2 5 mb ≡ some (5 ∷ [])
unfolding compute_sender_sizes sizes_loop compute_senders
five_parts = refl

abbrev at_start : Transfers
at_start = started_with (goroutines sevens (λ i. i) good_server 0 (5 ∷ []))

simulate_succeeds_example :
    (0 ≤ 6)
    × (at_start.crashed ≡ false)
    × (((length at_start.got ≡ length {A = ℕ} (5 ∷ [])) × (summary at_start ≡ success))
        ⊎ ((q : Transfers) × Turn (length {A = ℕ} (5 ∷ [])) at_start q))
simulate_succeeds_example =
    simulate_succeeds sevens (λ i. i) good_server five_bytes (5 ∷ []) (omega arith) (omega arith)
      five_parts (good_server-Serves (codes "alphasoc-" ++ itoa 0), tt) begin
