-- ===== src/Ssh/Packet.antt =====
-- v2/simulator/ssh/packet.go: framing of packets, and the parsers of the responses.
pub mod Frames
use flightsim.Prelude.{
  ℕ, ◌+◌, ◌-◌, ◌%◌, ◌^◌, List, [], ◌∷◌, ◌++◌, Option, none, some, length, take, drop, replicate,
  ltb, ◌==◌, if◌then◌else◌,
}
use flightsim.Prelude.Bytes.{Bytes}
use flightsim.Utils.Marshal.{marshal_uint32, unmarshal_uint32}
use flightsim.Ssh.Fxp.Parser.{FxpError, new_field_parser, read_uint32, read_string, get_error}
use flightsim.Ssh.Fxp.Packets.{Version, Handle, Status, Packet, marshal, get_code, unmarshal_status}
use flightsim.Ssh.Result.{
  IoError, eof, unexpected_eof, io_failure, Error, io, parse, wrapped, Result, ok, err, Context,
  failed_reading_response, failed_parsing_version, failed_parsing_open, failed_parsing_status,
}

-- `payload` is the field `data`.
pub record RawPacket : Type 0 where
  pub len : ℕ
  pub typecode : ℕ
  pub payload : Bytes

-- `uint32(len(data) + 1)` wraps.
abbrev pub make_raw_packet : Packet → RawPacket
make_raw_packet p = record {
  len = (length (marshal p) + 1) % 2 ^ 32;
  typecode = get_code p;
  payload = marshal p;
}

unfoldable pub marshal_raw : RawPacket → Bytes
marshal_raw p =
    if p.len == 0 then 0 ∷ 0 ∷ 0 ∷ 0 ∷ [] else marshal_uint32 p.len ++ (p.typecode ∷ p.payload)

-- An `io.Reader`: the bytes that it has still to give, and the error that comes behind them.
pub record Reader : Type 0 where
  pub pending : Bytes
  pub ending : IoError

-- `io.ReadFull` reports the end of the input as unexpected if it has read something.
unfoldable pub full_error : ℕ → IoError → IoError
full_error count eof = if count == 0 then eof else unexpected_eof
full_error count unexpected_eof = unexpected_eof
full_error count (io_failure n) = io_failure n

-- `io.ReadFull` into a fresh slice of `n` bytes: the slice, the error, and the reader behind it.
unfoldable pub read_full : ℕ → Reader → Bytes × Option IoError × Reader
unfolding full_error
read_full n r =
    let count = length r.pending in
    if ltb count n
    then (
      r.pending ++ replicate (n - count) 0,
      some (full_error count r.ending),
      record r { pending = [] },
    )
    else (take n r.pending, none, record r { pending = drop n r.pending })

-- The two `if err != nil` of `ReadPacket`.
unfoldable pub read_failure : Bytes → IoError → Bytes × Option Error
read_failure resp eof = (resp, some (io eof))
read_failure resp unexpected_eof = (resp, some (io unexpected_eof))
read_failure resp (io_failure n) = ([], some (wrapped failed_reading_response (io (io_failure n))))

abbrev pub body_result : Bytes × Option IoError × Reader → Bytes × Option Error × Reader
body_result (resp, none, r) = (resp, none, r)
body_result (resp, some e, r) = let (b, x) = read_failure resp e in (b, x, r)

abbrev pub header_result : Bytes × Option IoError × Reader → Bytes × Option Error × Reader
header_result (resp, none, r) = body_result (read_full (unmarshal_uint32 resp) r)
header_result (resp, some e, r) = let (b, x) = read_failure resp e in (b, x, r)

-- `ReadPacket`: a length of four bytes, then as many bytes. A nil slice is `[]`.
unfoldable pub read_packet : Reader → Bytes × Option Error × Reader
read_packet r = header_result (read_full 4 r)

-- The parsers of the responses: `if err := parser.GetError(); err != nil`.
unfoldable pub parsed {ℓ} : {A : Type ℓ} → Context → A → Option FxpError → Result A
parsed c a none = ok a
parsed c a (some e) = err (wrapped c (parse e))

unfoldable pub version_resp : Bytes → Result Version
unfolding parsed
version_resp input =
    let (version, f) = read_uint32 (new_field_parser input) in
    parsed failed_parsing_version (record { version = version }) (get_error f)

unfoldable pub open_resp : Bytes → Result Handle
unfolding parsed
open_resp input =
    let (id, f1) = read_uint32 (new_field_parser input) in
    let (handle, f2) = read_string f1 in
    parsed failed_parsing_open (record { id = id; handle = handle }) (get_error f2)

unfoldable pub status_resp : Bytes → Result Status
unfolding parsed
status_resp input =
    let (status, e) = unmarshal_status input in parsed failed_parsing_status status e
