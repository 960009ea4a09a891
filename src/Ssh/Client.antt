-- ===== src/Ssh/Client.antt =====
-- v2/simulator/ssh/client.go: requests to an SFTP server and its responses. `NewClient` and
-- `Teardown` are calls of package golang.org/x/crypto/ssh; here a client is the two pipes that
-- `NewClient` sets up. The random generator is passed beside it (Ssh.Transfer).
pub mod Responses
pub mod Replies
use flightsim.Prelude.{
  ℕ, ◌+◌, ◌-◌, ◌%◌, ◌^◌, min, List, [], ◌∷◌, ◌++◌, Option, none, some, not, length, take, ◌==◌,
  if◌then◌else◌,
}
use flightsim.Prelude.Bytes.{codes, Bytes}
use flightsim.Ssh.Fxp.Packets.{
  Version, Handle, Status, Packet, version_pkt, handle_pkt, status_pkt, init_pkt, open_pkt,
  write_pkt, close_pkt, ssh_fx_ok, type_code_version, type_code_handle, type_code_status,
}
use flightsim.Ssh.Result.{
  IoError, Error, io, wrapped, server_message, unexpected_response_type, unsupported_response_type,
  invalid_response, Context, failed_reading_response, failed_init, failed_open, failed_write,
  failed_close, Result, ok, err, panic,
}
use flightsim.Ssh.Packet.{
  make_raw_packet, marshal_raw, Reader, read_packet, version_resp, open_resp, status_resp,
}

-- An `io.Writer` that records what it was given. `faults` foretells the calls of `Write`: `none`
-- accepts all bytes, `some (n, e)` takes `n` bytes at most and returns the error `e`; behind the end
-- of the list every call is accepted.
pub record Writer : Type 0 where
  pub sent : Bytes
  pub faults : List (Option (ℕ × IoError))

pub record Client : Type 0 where
  pub name : Bytes
  pub w : Writer
  pub r : Reader

abbrev pub client_ver : ℕ
client_ver = 3

abbrev pub req_id : ℕ
req_id = 1

-- `Write`: the number of bytes taken, the error, and the writer behind the call.
unfoldable pub write_faults :
    List (Option (ℕ × IoError)) → Bytes → Bytes → ℕ × Option IoError × Writer
write_faults [] sent b = (length b, none, record { sent = sent ++ b; faults = [] })
write_faults (none ∷ fs) sent b = (length b, none, record { sent = sent ++ b; faults = fs })
write_faults (some (n, e) ∷ fs) sent b =
    (min n (length b), some e, record { sent = sent ++ take n b; faults = fs })

abbrev pub write : Bytes → Writer → ℕ × Option IoError × Writer
write b w = write_faults w.faults w.sent b

-- `ReadResp` on a Status: it is what the caller wants, or it carries an error, or it is out of place.
unfoldable pub status_case : ℕ → Result Status → Result Packet
status_case expected (err e) = err e
status_case expected panic = panic
status_case expected (ok status) =
    if expected == type_code_status
    then ok (status_pkt status)
    else if not (status.err_code == ssh_fx_ok)
    then err (server_message status.err_msg)
    else err unexpected_response_type

abbrev pub map_result : {A : Type 0} → (A → Packet) → Result A → Result Packet
map_result f (ok a) = ok (f a)
map_result f (err e) = err e
map_result f panic = panic

unfoldable pub typed_resp : ℕ → ℕ → Bytes → Result Packet
unfolding status_case
typed_resp expected resp_type resp_data =
    if resp_type == type_code_status
    then status_case expected (status_resp resp_data)
    else if not (expected == resp_type)
    then err unexpected_response_type
    else if resp_type == type_code_version
    then map_result version_pkt (version_resp resp_data)
    else if resp_type == type_code_handle
    then map_result handle_pkt (open_resp resp_data)
    else err unsupported_response_type

-- `resp[0]` panics on an empty slice, which `ReadPacket` returns for a length of 0.
unfoldable pub resp_of_packet : ℕ → Bytes × Option Error × Reader → Result Packet × Reader
unfolding typed_resp
resp_of_packet expected (resp, some e, r) = (err e, r)
resp_of_packet expected ([], none, r) = (panic, r)
resp_of_packet expected (resp_type ∷ resp_data, none, r) =
    (typed_resp expected resp_type resp_data, r)

-- `ReadResp`
unfoldable pub read_resp : ℕ → Reader → Result Packet × Reader
read_resp expected r = resp_of_packet expected (read_packet r)

-- `resp.(*fxp.Version)` with its error branches; likewise for the other requests.
unfoldable pub init_result : Result Packet → Result Version
init_result (err e) = err (wrapped failed_init e)
init_result (ok (version_pkt v)) = ok v
init_result (ok _) = err (wrapped failed_init invalid_response)
init_result panic = panic

unfoldable pub open_result : Result Packet → Result Handle
open_result (err e) = err (wrapped failed_open e)
open_result (ok (handle_pkt h)) = ok h
open_result (ok _) = err (wrapped failed_open invalid_response)
open_result panic = panic

abbrev refused : Context → Status → Result Status
refused c s =
    if not (s.err_code == ssh_fx_ok) then err (wrapped c (server_message s.err_msg)) else ok s

unfoldable pub write_result : Result Packet → Result Status
write_result (err e) = err (wrapped failed_write (wrapped failed_reading_response e))
write_result (ok (status_pkt s)) = refused failed_write s
write_result (ok _) = err (wrapped failed_write invalid_response)
write_result panic = panic

unfoldable pub close_result : Result Packet → Result Status
close_result (err e) = err (wrapped failed_close e)
close_result (ok (status_pkt s)) = refused failed_close s
close_result (ok _) = err (wrapped failed_close invalid_response)
close_result panic = panic

-- One request: the packet is written, and, if that goes well, a response is read. The number is what
-- `Write` returned.
abbrev pub respond :
    {A : Type 0}
    → Context
    → ℕ
    → (Result Packet → Result A)
    → Client
    → ℕ × Option IoError × Writer
    → ℕ × Result A × Client
respond c expected finish client (n, some e, w) =
    (n, err (wrapped c (io e)), record client { w = w })
respond c expected finish client (n, none, w) =
    let (resp, r) = read_resp expected client.r in (n, finish resp, record client { w = w; r = r })

unfoldable pub send_init : Client → Result Version × Client
send_init c =
    let packet = init_pkt (record { version = client_ver }) in
    let (n, v, c') =
      respond failed_init type_code_version init_result c
        (write (marshal_raw (make_raw_packet packet)) c.w) in
    (v, c')

-- `uint32(flags)` wraps. `send_open_output` has what the request prints.
unfoldable pub send_open : Bytes → ℕ → Client → Result Handle × Client
send_open filename flags c =
    let packet = open_pkt (record { id = req_id; filename = filename; flags = flags % 2 ^ 32 }) in
    let (n, h, c') =
      respond failed_open type_code_handle open_result c
        (write (marshal_raw (make_raw_packet packet)) c.w) in
    (h, c')

abbrev output_of_resp : Bytes → Result Packet → Bytes
output_of_resp filename (err e) = codes "filename: " ++ (filename ++ (10 ∷ []))
output_of_resp filename (ok resp) = []
output_of_resp filename panic = []

abbrev output_of_open : Bytes → Client → ℕ × Option IoError × Writer → Bytes
output_of_open filename c (n, some e, w) = []
output_of_open filename c (n, none, w) = output_of_resp filename (read_resp type_code_handle c.r).0

-- What `SendOpen` prints: the file's name if `ReadResp` fails.
unfoldable send_open_output : Bytes → ℕ → Client → Bytes
send_open_output filename flags c =
    let packet = open_pkt (record { id = req_id; filename = filename; flags = flags % 2 ^ 32 }) in
    output_of_open filename c (write (marshal_raw (make_raw_packet packet)) c.w)

-- The bytes to send, the bytes sent, the status, and the client behind the request.
unfoldable pub send_write : Bytes → ℕ → Bytes → Client → ℕ × ℕ × Result Status × Client
send_write handle offset payload c =
    let packet =
      write_pkt (record { id = req_id; handle = handle; offset = offset; payload = payload }) in
    let raw = marshal_raw (make_raw_packet packet) in
    let (n, s, c') = respond failed_write type_code_status write_result c (write raw c.w) in
    (length raw, n, s, c')

unfoldable pub send_close : Bytes → Client → Result Status × Client
send_close handle c =
    let packet = close_pkt (record { id = req_id; handle = handle }) in
    let (n, s, c') =
      respond failed_close type_code_status close_result c
        (write (marshal_raw (make_raw_packet packet)) c.w) in
    (s, c')
