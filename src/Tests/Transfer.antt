-- ===== src/Tests/Transfer.antt =====
-- The theorems on transfers (v2/simulator/ssh/client.go, v2/simulator/ssh-transfer.go) at concrete
-- servers, with a generator that repeats one byte.
use flightsim.Prelude.{
  ◌+◌, ◌-◌, ◌%◌, ◌≡◌, refl, [], ◌∷◌, ◌++◌, none, some, arith, replicate, ℕ, List, length, false,
  true, ◌⊎◌, ◌≤◌,
}
use flightsim.Prelude.Bytes.{Bytes, codes, itoa, are_bytes-All}
use flightsim.Utils.Marshal.{marshal_uint32, marshal_string}
use flightsim.Ssh.Fxp.Packets.{
  type_code_handle, Status, Handle, status_pkt, handle_pkt, marshal, marshal_status, marshal_handle,
}
use flightsim.Ssh.Packet.{Reader}
use flightsim.Ssh.Packet.Frames.{IsFramed, frame}
use flightsim.Ssh.Result.{
  eof, io_failure, io, wrapped, failed_write, failed_transfer, Result, ok, err,
}
use flightsim.Ssh.Client.{Client, read_resp}
use flightsim.Ssh.Client.Replies.{IsReply}
use flightsim.Ssh.Transfer.{u64, WriteResponse, write_random, write_loop}
use flightsim.Ssh.Transfer.Loop.{Succeeds, open_frame, close_frame, chunk_frames}
use flightsim.Ssh.Transfer.Complete.{chunks, write_random-Succeeds}
use flightsim.Ssh.Transfer.Server.{IsGrant, replies, client_of, Completes, write_random-Completes}
use flightsim.Ssh.Transfer.Underflow.{overhead, faulty, Reports, write_loop_underflow}
use flightsim.Utils.Conn.{compute_sender_sizes, sizes_loop, compute_senders}
use flightsim.Simulator.SshTransfer.{mb}
use flightsim.Simulator.SshTransfer.Schedule.{
  Task, goroutines, Transfers, Turn, send, receive, Schedule, begin, next, summary,
}
use flightsim.Simulator.SshTransfer.Concurrent.{Delivers, simulate_ends, simulate_sums}
use flightsim.Simulator.SshTransfer.Outcomes.{SumsUpTo}
use flightsim.Simulator.SshTransfer.{SshTransfer, worker, delivered, simulate_client, new_client}

abbrev sevens : ℕ → ℕ → Bytes × ℕ
sevens g n = (replicate n 7, g + n)

abbrev file_handle : Handle
file_handle = record { id = 1; handle = codes "h" }

abbrev granted : Status
granted = record { id = 1; err_code = 0; err_msg = []; lang = codes "en" }

file_handle-IsReply : IsReply (handle_pkt file_handle)
file_handle-IsReply = (omega arith, (omega arith, are_bytes-All (codes "h") refl))

file_handle-IsFramed : IsFramed (handle_pkt file_handle)
unfolding marshal marshal_handle marshal_uint32 marshal_string
file_handle-IsFramed = omega arith

granted-IsFramed : IsFramed (status_pkt granted)
unfolding marshal marshal_status marshal_uint32 marshal_string
granted-IsFramed = omega arith

granted-IsGrant : IsGrant granted
granted-IsGrant = (
  refl,
  (omega arith, omega arith, (omega arith, tt), (omega arith, are_bytes-All (codes "en") refl)),
  granted-IsFramed,
)

-- A server that opens the file and grants two requests.
abbrev server : Client
server =
    client_of (codes "alphasoc-0") []
      (frame (handle_pkt file_handle) ++ (replies (granted ∷ granted ∷ []) ++ [])) eof

write_random-Succeeds_example :
    Succeeds
      (λ b h sent.
        (b ≡ 3)
        × ((a : Handle) × ((read_resp type_code_handle server.r).0 ≡ ok (handle_pkt a))
            × (h ≡ a.handle))
        × (sent
            ≡ (server.w.sent ++ open_frame (codes "f"))
              ++ (chunk_frames sevens (chunks 3) h 3 0 0 ++ close_frame h)))
      (write_random sevens (codes "f") 3 0 server)
write_random-Succeeds_example = write_random-Succeeds sevens (codes "f") 3 0 server (omega arith)

write_random-Completes_example : Completes (write_random sevens (codes "f") 3 0 server)
write_random-Completes_example =
    write_random-Completes sevens (codes "alphasoc-0") eof (codes "f") 3 0 [] [] file_handle
      (granted ∷ granted ∷ []) (omega arith) file_handle-IsReply file_handle-IsFramed (omega arith)
      (granted-IsGrant, (granted-IsGrant, tt))

abbrev silent : Reader
silent = record { pending = []; ending = eof }

-- The first Write of three bytes fails after the five bytes of length and type.
write_loop_underflow_example :
    Reports
      ((0 + (u64 - (overhead (codes "h") - 5))) % u64)
      (wrapped failed_transfer (wrapped failed_write (io (io_failure 1))))
      (write_loop sevens 1 (codes "h") 3 (record {
        client = faulty (codes "alphasoc-0") 5 (io_failure 1) [] [] silent;
        gen = 0;
        total = 0;
        i = 0;
      }))
write_loop_underflow_example =
    write_loop_underflow sevens 0 (codes "h") (codes "alphasoc-0") [] 3 0 0 5 0 (io_failure 1) []
      silent (omega arith) (omega arith) (omega arith) (omega arith) refl (omega arith)

abbrev sent_five : WriteResponse
sent_five = record { client_name = codes "a"; bytes_sent = 5; handle = codes "h"; err = none }

abbrev sent_none : WriteResponse
sent_none = record { client_name = codes "b"; bytes_sent = 0; handle = []; err = some (io eof) }

abbrev five_bytes : SshTransfer
five_bytes = record { src = []; send_size = 5 }

five_parts : compute_sender_sizes 2 5 mb ≡ some (5 ∷ [])
unfolding compute_sender_sizes sizes_loop compute_senders
five_parts = refl

-- No server accepts a connection.
abbrev no_server : Bytes → Result Client
no_server name = err (io eof)

abbrev no_response : WriteResponse
no_response = record {
  client_name = codes "alphasoc-0";
  bytes_sent = 0;
  handle = [];
  err = some (io eof);
}

abbrev no_tasks : List Task
no_tasks = goroutines sevens (λ i. i) no_server 0 (5 ∷ [])

no_tasks_lem : no_tasks ≡ record { delivery = delivered no_response; closes = false } ∷ []
unfolding goroutines worker itoa simulate_client new_client
no_tasks_lem = refl

abbrev all_received : Transfers
all_received = record {
  waiting = [];
  closing = 0;
  channel = [];
  got = no_response ∷ [];
  crashed = false;
}

both_steps : Schedule no_tasks 2 all_received
both_steps = rw no_tasks_lem (
    next (next begin (send [] [] no_response false 0 [] [] (omega arith)))
      (receive [] 0 no_response [] [] (omega arith)))

simulate_ends_example :
    (2 ≤ 6)
    × ((all_received.crashed ≡ true)
        ⊎ ((length all_received.got ≡ length {A = ℕ} (5 ∷ []))
            ⊎ ((q : Transfers) × Turn (length {A = ℕ} (5 ∷ [])) all_received q)))
simulate_ends_example =
    simulate_ends sevens (λ i. i) no_server five_bytes (5 ∷ []) (omega arith) (omega arith)
      five_parts both_steps

simulate_sums_example :
    (rs : List WriteResponse) × Delivers sevens (λ i. i) no_server 0 (5 ∷ []) rs
    × SumsUpTo rs (5 ∷ []) 5 (summary all_received)
simulate_sums_example =
    simulate_sums sevens (λ i. i) no_server five_bytes (5 ∷ []) (omega arith) (omega arith)
      five_parts both_steps refl refl
