-- ===== src/Utils/Marshal.antt =====
-- v2/utils/marshal.go: integers and strings in network byte order.
pub mod RoundTrip
use flightsim.Prelude.{ℕ, ◌+◌, ◌*◌, ◌/◌, ◌%◌, ◌^◌, List, [], ◌∷◌, ◌++◌, length, get_or}
use flightsim.Prelude.{if◌then◌else◌}
use flightsim.Prelude.Bytes.{Bytes, bytes_eq}

-- `byte(v)`
abbrev pub to_byte : ℕ → ℕ
to_byte v = v % 256

-- `binary.BigEndian.PutUint32` into a fresh slice of four bytes
unfoldable pub marshal_uint32 : ℕ → Bytes
marshal_uint32 i =
    to_byte (i / 2 ^ 24) ∷ to_byte (i / 2 ^ 16) ∷ to_byte (i / 2 ^ 8) ∷ to_byte i ∷ []

-- `binary.BigEndian.Uint32`, which reads `b[0]` to `b[3]`. Go panics on a shorter slice; each caller
-- hands over four bytes exactly.
unfoldable pub unmarshal_uint32 : Bytes → ℕ
unmarshal_uint32 b =
    get_or b 3 0 + get_or b 2 0 * 2 ^ 8 + get_or b 1 0 * 2 ^ 16 + get_or b 0 0 * 2 ^ 24

unfoldable pub marshal_uint64 : ℕ → Bytes
marshal_uint64 i =
    to_byte (i / 2 ^ 56)
    ∷ to_byte (i / 2 ^ 48)
    ∷ to_byte (i / 2 ^ 40)
    ∷ to_byte (i / 2 ^ 32)
    ∷ to_byte (i / 2 ^ 24)
    ∷ to_byte (i / 2 ^ 16)
    ∷ to_byte (i / 2 ^ 8)
    ∷ to_byte i
    ∷ []

-- `binary.BigEndian.Uint64`; its callers hand over eight bytes exactly.
unfoldable pub unmarshal_uint64 : Bytes → ℕ
unmarshal_uint64 b =
    get_or b 7 0
    + get_or b 6 0 * 2 ^ 8
    + get_or b 5 0 * 2 ^ 16
    + get_or b 4 0 * 2 ^ 24
    + get_or b 3 0 * 2 ^ 32
    + get_or b 2 0 * 2 ^ 40
    + get_or b 1 0 * 2 ^ 48
    + get_or b 0 0 * 2 ^ 56

-- `uint32(len(str))` wraps.
unfoldable pub marshal_string : Bytes → Bytes
unfolding bytes_eq
marshal_string str =
    if bytes_eq str [] then 0 ∷ 0 ∷ 0 ∷ 0 ∷ [] else marshal_uint32 (length str % 2 ^ 32) ++ str
