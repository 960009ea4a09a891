-- ===== src/Ssh/Fxp/Parser.antt =====
-- `FieldParser` of v2/simulator/ssh/fxp/fxp.go: it reads fields off the front of a buffer, and
-- remembers the last error.
use flightsim.Prelude.{ℕ, [], Option, none, some, ltb, length, take, drop, if◌then◌else◌}
use flightsim.Prelude.Bytes.{Bytes}
use flightsim.Utils.Marshal.{unmarshal_uint32, unmarshal_uint64}

pub data FxpError : Type 0 where
  err_size err_unimplemented : FxpError

pub record FieldParser : Type 0 where
  pub buffer : Bytes
  pub err : Option FxpError

abbrev pub new_field_parser : Bytes → FieldParser
new_field_parser in_bytes = record { buffer = in_bytes; err = none }

-- Below 4 bytes the error is set, the result is 0 and the buffer stays.
unfoldable pub read_uint32 : FieldParser → ℕ × FieldParser
read_uint32 f =
    if ltb (length f.buffer) 4
    then (0, record f { err = some err_size })
    else (unmarshal_uint32 (take 4 f.buffer), record f { buffer = drop 4 f.buffer })

unfoldable pub read_uint64 : FieldParser → ℕ × FieldParser
read_uint64 f =
    if ltb (length f.buffer) 8
    then (0, record f { err = some err_size })
    else (unmarshal_uint64 (take 8 f.buffer), record f { buffer = drop 8 f.buffer })

-- What `ReadString` does once the length is read: the four bytes of the length are used up also if
-- the text is too short. `int(length)` is exact, as `int` has 64 bits.
unfoldable pub read_text : ℕ → FieldParser → Bytes × FieldParser
read_text len f =
    if ltb (length f.buffer) len
    then ([], record f { err = some err_size })
    else (take len f.buffer, record f { buffer = drop len f.buffer })

unfoldable pub read_string : FieldParser → Bytes × FieldParser
read_string f =
    if ltb (length f.buffer) 4
    then ([], record f { err = some err_size })
    else read_text (unmarshal_uint32 (take 4 f.buffer)) (record f { buffer = drop 4 f.buffer })

abbrev pub get_error : FieldParser → Option FxpError
get_error f = f.err
