-- ===== src/Tests/Protocol.antt =====
-- The theorems on v2/simulator/ssh/fxp/fxp.go, v2/simulator/ssh/packet.go, v2/simulator/ssh/client.go
-- and v2/utils/conn.go at concrete packets and streams.
use flightsim.Prelude.{
  ℕ, ◌<◌, ◌≤◌, ◌≡◌, ◌≢◌, ◌↔◌, refl, ap, [], ◌∷◌, ◌++◌, none, some, All, arith, length, take,
  if◌then◌else◌, ◌==◌,
}
use flightsim.Prelude.Bytes.{Bytes, codes, IsByte, are_bytes-All}
use flightsim.Utils.Conn.{compute_sender_sizes, sizes_loop, compute_senders}
use flightsim.Utils.Conn.Sizes.{Finds, sum, compute_sender_sizes_least, compute_sender_sizes_parts}
use flightsim.Ssh.Fxp.Parser.{read_string, read_uint32, read_text}
use flightsim.Utils.Marshal.{unmarshal_uint32, marshal_uint32, marshal_string}
use flightsim.Ssh.Fxp.Packets.{
  Status, close_pkt, unmarshal_close, Packet, status_pkt, open_pkt, marshal, marshal_status,
  get_code, unmarshal, type_code_handle, type_code_status, ssh_fx_ok,
}
use flightsim.Ssh.Fxp.RoundTrip.{IsWirePacket, fields, unmarshal-marshal}
use flightsim.Ssh.Fxp.Sound.{Holds, unmarshal-Holds, unmarshal_truncated}
use flightsim.Ssh.Result.{eof, err, ok, panic, server_message, unexpected_response_type}
use flightsim.Ssh.Packet.{read_packet}
use flightsim.Ssh.Packet.Frames.{IsFramed, frame, read_packet-frame}
use flightsim.Ssh.Client.{read_resp}
use flightsim.Ssh.Client.Responses.{read_resp-code, read_resp_panic}
use flightsim.Ssh.Client.Replies.{read_resp_reply, read_resp_status_out_of_place}

abbrev file : Packet
file = open_pkt (record { id = 1; filename = codes "ab"; flags = 64 })

abbrev other_file : Packet
other_file = open_pkt (record { id = 0; filename = []; flags = 0 })

abbrev denied : Status
denied = record { id = 1; err_code = 3; err_msg = codes "no"; lang = codes "en" }

file-IsWirePacket : IsWirePacket file
file-IsWirePacket = (omega arith, (omega arith, are_bytes-All (codes "ab") refl), omega arith)

denied-IsWirePacket : IsWirePacket (status_pkt denied)
denied-IsWirePacket = (
  omega arith,
  omega arith,
  (omega arith, are_bytes-All (codes "no") refl),
  (omega arith, are_bytes-All (codes "en") refl),
)

denied-IsFramed : IsFramed (status_pkt denied)
unfolding marshal marshal_status marshal_uint32 marshal_string
denied-IsFramed = omega arith

unmarshal-marshal_example : unmarshal other_file (marshal file ++ (9 ∷ [])) ≡ (file, none)
unfolding get_code
unmarshal-marshal_example = unmarshal-marshal other_file file (9 ∷ []) refl tt file-IsWirePacket

-- A Close in bytes, with one byte behind it.
abbrev close_input : Bytes
close_input = 0 ∷ 0 ∷ 0 ∷ 1 ∷ 0 ∷ 0 ∷ 0 ∷ 1 ∷ 104 ∷ 7 ∷ []

close_input_bytes : All IsByte close_input
close_input_bytes = are_bytes-All close_input refl

abbrev other_close : Packet
other_close = close_pkt (record { id = 0; handle = [] })

unmarshal-Holds_example : Holds close_input (unmarshal other_close close_input).0
unfolding unmarshal unmarshal_close read_string read_uint32 read_text unmarshal_uint32
unmarshal-Holds_example = unmarshal-Holds close_input close_input_bytes other_close refl

-- The fields of `file` but for their last byte.
abbrev cut_fields : Bytes
cut_fields = 0 ∷ 0 ∷ 0 ∷ 1 ∷ 0 ∷ 0 ∷ 0 ∷ 2 ∷ 97 ∷ 98 ∷ 0 ∷ 0 ∷ 0 ∷ []

unmarshal_truncated_example : (unmarshal other_file cut_fields).1 ≢ none
unfolding get_code fields marshal_uint32 marshal_string
unmarshal_truncated_example =
    unmarshal_truncated other_file file cut_fields [] 64 refl tt file-IsWirePacket
      (are_bytes-All cut_fields refl) refl

read_packet-frame_example :
    read_packet (record { pending = frame (status_pkt denied) ++ (9 ∷ []); ending = eof }) ≡ (
      get_code (status_pkt denied) ∷ marshal (status_pkt denied),
      none,
      record { pending = 9 ∷ []; ending = eof },
    )
read_packet-frame_example = read_packet-frame (status_pkt denied) (9 ∷ []) eof denied-IsFramed

read_resp_reply_example :
    read_resp
      (get_code (status_pkt denied))
      (record { pending = frame (status_pkt denied) ++ (9 ∷ []); ending = eof })
    ≡ (ok (status_pkt denied), record { pending = 9 ∷ []; ending = eof })
read_resp_reply_example =
    read_resp_reply (status_pkt denied) (9 ∷ []) eof denied-IsWirePacket denied-IsFramed

read_resp-code_example : get_code (status_pkt denied) ≡ type_code_status
unfolding get_code
read_resp-code_example =
    read_resp-code type_code_status
      (record { pending = frame (status_pkt denied) ++ (9 ∷ []); ending = eof }) (status_pkt denied)
      (ap (λ r. r.0) read_resp_reply_example)

read_resp_panic_example :
    ((read_resp type_code_status (record { pending = 0 ∷ 0 ∷ 0 ∷ 0 ∷ []; ending = eof })).0 ≡ panic)
    ↔ (take {A = ℕ} 4 (0 ∷ 0 ∷ 0 ∷ 0 ∷ []) ≡ 0 ∷ 0 ∷ 0 ∷ 0 ∷ [])
read_resp_panic_example =
    read_resp_panic type_code_status (record { pending = 0 ∷ 0 ∷ 0 ∷ 0 ∷ []; ending = eof })
      (are_bytes-All (0 ∷ 0 ∷ 0 ∷ 0 ∷ []) refl)

read_resp_status_out_of_place_example :
    (read_resp type_code_handle
      (record { pending = frame (status_pkt denied) ++ (9 ∷ []); ending = eof })).0
    ≡ err (
        if denied.err_code == ssh_fx_ok
        then unexpected_response_type
        else server_message denied.err_msg)
read_resp_status_out_of_place_example =
    read_resp_status_out_of_place type_code_handle denied (9 ∷ []) eof (omega arith)
      denied-IsWirePacket denied-IsFramed

compute_sender_sizes_least_example : Finds (compute_sender_sizes 2 10 3) 2 10 3 0
compute_sender_sizes_least_example =
    compute_sender_sizes_least 2 10 3 (omega arith) (omega arith) (omega arith)

-- Ten bytes by at most two senders, of 6 and 4.
ten_bytes : compute_sender_sizes 2 10 3 ≡ some (6 ∷ 4 ∷ [])
unfolding compute_sender_sizes sizes_loop compute_senders
ten_bytes = refl

compute_sender_sizes_parts_example :
    (sum (6 ∷ 4 ∷ []) ≡ 10) × (length {A = ℕ} (6 ∷ 4 ∷ []) ≤ 2) × All (λ x. 0 < x) (6 ∷ 4 ∷ [])
compute_sender_sizes_parts_example =
    compute_sender_sizes_parts 2 10 3 (omega arith) (omega arith) (omega arith) (6 ∷ 4 ∷ [])
      ten_bytes
