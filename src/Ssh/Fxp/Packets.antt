-- ===== src/Ssh/Fxp/Packets.antt =====
-- The packets of v2/simulator/ssh/fxp/fxp.go: their fields, type codes, `Marshal`, `Unmarshal`. An
-- `Unmarshal` returns the packet that it filled in, with the error; Go's receiver is overwritten in
-- every field, so its former value plays no part.
use flightsim.Prelude.{ℕ, [], ◌∷◌, ◌++◌, Option, some}
use flightsim.Prelude.Bytes.{Bytes}
use flightsim.Utils.Marshal.{marshal_uint32, marshal_uint64, marshal_string}
use flightsim.Ssh.Fxp.Parser.{
  FxpError, err_unimplemented, new_field_parser, read_uint32, read_uint64, read_string, get_error,
}

abbrev pub ssh_fx_ok : ℕ
ssh_fx_ok = 0

-- The type codes that the program uses.
abbrev pub type_code_init : ℕ
type_code_init = 1

abbrev pub type_code_version : ℕ
type_code_version = 2

abbrev pub type_code_open : ℕ
type_code_open = 3

abbrev pub type_code_close : ℕ
type_code_close = 4

abbrev pub type_code_write : ℕ
type_code_write = 6

abbrev pub type_code_status : ℕ
type_code_status = 101

abbrev pub type_code_handle : ℕ
type_code_handle = 102

pub record Version : Type 0 where
  pub version : ℕ

pub record Handle : Type 0 where
  pub id : ℕ
  pub handle : Bytes

pub record Status : Type 0 where
  pub id : ℕ
  pub err_code : ℕ
  pub err_msg : Bytes
  pub lang : Bytes

pub record Init : Type 0 where
  pub version : ℕ

pub record Open : Type 0 where
  pub id : ℕ
  pub filename : Bytes
  pub flags : ℕ

-- `payload` is the field `Data`.
pub record Write : Type 0 where
  pub id : ℕ
  pub handle : Bytes
  pub offset : ℕ
  pub payload : Bytes

pub record Close : Type 0 where
  pub id : ℕ
  pub handle : Bytes

unfoldable pub marshal_version : Version → Bytes
marshal_version p = marshal_uint32 p.version

unfoldable pub marshal_handle : Handle → Bytes
marshal_handle p = marshal_uint32 p.id ++ marshal_string p.handle

unfoldable pub marshal_status : Status → Bytes
marshal_status p =
    marshal_uint32 p.id
    ++ (marshal_uint32 p.err_code ++ (marshal_string p.err_msg ++ marshal_string p.lang))

unfoldable pub unmarshal_status : Bytes → Status × Option FxpError
unmarshal_status input =
    let (id, f1) = read_uint32 (new_field_parser input) in
    let (err_code, f2) = read_uint32 f1 in
    let (err_msg, f3) = read_string f2 in
    let (lang, f4) = read_string f3 in
    (record { id = id; err_code = err_code; err_msg = err_msg; lang = lang }, get_error f4)

unfoldable pub marshal_init : Init → Bytes
marshal_init p = marshal_uint32 p.version

unfoldable pub unmarshal_init : Bytes → Init × Option FxpError
unmarshal_init input =
    let (version, f1) = read_uint32 (new_field_parser input) in
    (record { version = version }, get_error f1)

-- Four bytes of empty attributes end the packet.
unfoldable pub marshal_open : Open → Bytes
marshal_open p =
    marshal_uint32 p.id
    ++ (marshal_string p.filename ++ (marshal_uint32 p.flags ++ (0 ∷ 0 ∷ 0 ∷ 0 ∷ [])))

unfoldable pub unmarshal_open : Bytes → Open × Option FxpError
unmarshal_open input =
    let (id, f1) = read_uint32 (new_field_parser input) in
    let (filename, f2) = read_string f1 in
    let (flags, f3) = read_uint32 f2 in
    (record { id = id; filename = filename; flags = flags }, get_error f3)

unfoldable pub marshal_write : Write → Bytes
marshal_write p =
    marshal_uint32 p.id
    ++ (marshal_string p.handle ++ (marshal_uint64 p.offset ++ marshal_string p.payload))

unfoldable pub unmarshal_write : Bytes → Write × Option FxpError
unmarshal_write input =
    let (id, f1) = read_uint32 (new_field_parser input) in
    let (handle, f2) = read_string f1 in
    let (offset, f3) = read_uint64 f2 in
    let (payload, f4) = read_string f3 in
    (record { id = id; handle = handle; offset = offset; payload = payload }, get_error f4)

unfoldable pub marshal_close : Close → Bytes
marshal_close p = marshal_uint32 p.id ++ marshal_string p.handle

unfoldable pub unmarshal_close : Bytes → Close × Option FxpError
unmarshal_close input =
    let (id, f1) = read_uint32 (new_field_parser input) in
    let (handle, f2) = read_string f1 in (record { id = id; handle = handle }, get_error f2)

-- The interface `Packet` (v2/simulator/ssh/packet.go): a value with its dynamic type.
pub data Packet : Type 0 where
  version_pkt : Version → Packet
  handle_pkt : Handle → Packet
  status_pkt : Status → Packet
  init_pkt : Init → Packet
  open_pkt : Open → Packet
  write_pkt : Write → Packet
  close_pkt : Close → Packet

unfoldable pub marshal : Packet → Bytes
marshal (version_pkt p) = marshal_version p
marshal (handle_pkt p) = marshal_handle p
marshal (status_pkt p) = marshal_status p
marshal (init_pkt p) = marshal_init p
marshal (open_pkt p) = marshal_open p
marshal (write_pkt p) = marshal_write p
marshal (close_pkt p) = marshal_close p

unfoldable pub get_code : Packet → ℕ
get_code (version_pkt p) = type_code_version
get_code (handle_pkt p) = type_code_handle
get_code (status_pkt p) = type_code_status
get_code (init_pkt p) = type_code_init
get_code (open_pkt p) = type_code_open
get_code (write_pkt p) = type_code_write
get_code (close_pkt p) = type_code_close

-- Version and Handle refuse, and leave the receiver as it was.
unfoldable pub unmarshal : Packet → Bytes → Packet × Option FxpError
unmarshal (version_pkt p) input = (version_pkt p, some err_unimplemented)
unmarshal (handle_pkt p) input = (handle_pkt p, some err_unimplemented)
unmarshal (status_pkt p) input = let (q, e) = unmarshal_status input in (status_pkt q, e)
unmarshal (init_pkt p) input = let (q, e) = unmarshal_init input in (init_pkt q, e)
unmarshal (open_pkt p) input = let (q, e) = unmarshal_open input in (open_pkt q, e)
unmarshal (write_pkt p) input = let (q, e) = unmarshal_write input in (write_pkt q, e)
unmarshal (close_pkt p) input = let (q, e) = unmarshal_close input in (close_pkt q, e)
