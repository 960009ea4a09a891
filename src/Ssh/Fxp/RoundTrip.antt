-- ===== src/Ssh/Fxp/RoundTrip.antt =====
-- `Unmarshal` and `Marshal` of the packets undo each other.
use flightsim.Prelude.{◌^◌, ◌<◌, ◌≡◌, sym, [], ◌∷◌, ◌++◌, none, arith, append_assoc, append-nil}
use flightsim.Prelude.Bytes.{Bytes}
use flightsim.Utils.Marshal.{marshal_uint32, marshal_string}
use flightsim.Ssh.Fxp.Reads.{
  IsWireString, read_uint32-marshal, read_uint64-marshal, read_string-marshal,
}
use flightsim.Ssh.Fxp.Packets.{
  Status, Open, Write, Close, Packet, version_pkt, handle_pkt, status_pkt, init_pkt, open_pkt,
  write_pkt, close_pkt, marshal, get_code, unmarshal, marshal_status, unmarshal_status,
  marshal_init, unmarshal_init, marshal_open, unmarshal_open, marshal_write, unmarshal_write,
  marshal_close, unmarshal_close, marshal_version, marshal_handle,
}

-- The fields fit the widths that they have in Go.
abbrev pub IsWirePacket : Packet → Type 0
IsWirePacket (version_pkt p) = p.version < 2 ^ 32
IsWirePacket (handle_pkt p) = (p.id < 2 ^ 32) × IsWireString p.handle
IsWirePacket (status_pkt p) =
    (p.id < 2 ^ 32) × (p.err_code < 2 ^ 32) × IsWireString p.err_msg × IsWireString p.lang
IsWirePacket (init_pkt p) = p.version < 2 ^ 32
IsWirePacket (open_pkt p) = (p.id < 2 ^ 32) × IsWireString p.filename × (p.flags < 2 ^ 32)
IsWirePacket (write_pkt p) =
    (p.id < 2 ^ 32) × IsWireString p.handle × (p.offset < 2 ^ 64) × IsWireString p.payload
IsWirePacket (close_pkt p) = (p.id < 2 ^ 32) × IsWireString p.handle

-- What `Unmarshal` reads of a packet: all but the attributes at the end of an Open.
unfoldable pub fields : Packet → Bytes
fields (version_pkt p) = marshal_version p
fields (handle_pkt p) = marshal_handle p
fields (status_pkt p) = marshal_status p
fields (init_pkt p) = marshal_init p
fields (open_pkt p) = marshal_uint32 p.id ++ (marshal_string p.filename ++ marshal_uint32 p.flags)
fields (write_pkt p) = marshal_write p
fields (close_pkt p) = marshal_close p

unfoldable pub attributes : Packet → Bytes
attributes (open_pkt p) = 0 ∷ 0 ∷ 0 ∷ 0 ∷ []
attributes _ = []

pub marshal-fields : (p : Packet) → marshal p ≡ fields p ++ attributes p
unfolding marshal fields attributes marshal_open
marshal-fields (open_pkt p) = simp append_assoc
marshal-fields (version_pkt p) = sym (append-nil _)
marshal-fields (handle_pkt p) = sym (append-nil _)
marshal-fields (status_pkt p) = sym (append-nil _)
marshal-fields (init_pkt p) = sym (append-nil _)
marshal-fields (write_pkt p) = sym (append-nil _)
marshal-fields (close_pkt p) = sym (append-nil _)

-- The packets whose `Unmarshal` is implemented.
abbrev pub IsReadable : Packet → Type 0
IsReadable (version_pkt p) = ⊥
IsReadable (handle_pkt p) = ⊥
IsReadable _ = Unit

-- Two packets of one Go type.
abbrev pub SameType : Packet → Packet → Type 0
SameType p q = get_code p ≡ get_code q

module _ (rest : Bytes) where
  pub unmarshal_status-fields :
      (p : Status)
      → IsWirePacket (status_pkt p)
      → unmarshal_status (fields (status_pkt p) ++ rest) ≡ (p, none)
  unfolding unmarshal_status marshal_status fields
  unmarshal_status-fields p h = simp (
    append_assoc,
    read_uint32-marshal none _ p.id h.0,
    read_uint32-marshal none _ p.err_code h.1,
    read_string-marshal none _ p.err_msg h.2.0,
    read_string-marshal none _ p.lang h.3.0,
  )

  unmarshal_open-fields :
      (p : Open)
      → IsWirePacket (open_pkt p)
      → unmarshal_open (fields (open_pkt p) ++ rest) ≡ (p, none)
  unfolding unmarshal_open fields
  unmarshal_open-fields p h = simp (
    append_assoc,
    read_uint32-marshal none _ p.id h.0,
    read_string-marshal none _ p.filename h.1.0,
    read_uint32-marshal none _ p.flags h.2,
  )

  unmarshal_write-fields :
      (p : Write)
      → IsWirePacket (write_pkt p)
      → unmarshal_write (fields (write_pkt p) ++ rest) ≡ (p, none)
  unfolding unmarshal_write marshal_write fields
  unmarshal_write-fields p h = simp (
    append_assoc,
    read_uint32-marshal none _ p.id h.0,
    read_string-marshal none _ p.handle h.1.0,
    read_uint64-marshal none _ p.offset h.2,
    read_string-marshal none _ p.payload h.3.0,
  )

  unmarshal_close-fields :
      (p : Close)
      → IsWirePacket (close_pkt p)
      → unmarshal_close (fields (close_pkt p) ++ rest) ≡ (p, none)
  unfolding unmarshal_close marshal_close fields
  unmarshal_close-fields p h =
      simp (
        append_assoc,
        read_uint32-marshal none _ p.id h.0,
        read_string-marshal none _ p.handle h.1.0,
      )

  -- Whatever the receiver held, the fields of a packet are read back, and what follows is ignored.
  pub unmarshal-fields :
      (receiver p : Packet)
      → SameType receiver p
      → IsReadable p
      → IsWirePacket p
      → unmarshal receiver (fields p ++ rest) ≡ (p, none)
  unfolding unmarshal get_code
  unmarshal-fields (status_pkt q) (status_pkt p) s r h = rw (unmarshal_status-fields p h)
  unmarshal-fields (init_pkt q) (init_pkt p) s r h =
      unfold unmarshal_init fields marshal_init in rw (read_uint32-marshal none rest p.version h)
  unmarshal-fields (open_pkt q) (open_pkt p) s r h = rw (unmarshal_open-fields p h)
  unmarshal-fields (write_pkt q) (write_pkt p) s r h = rw (unmarshal_write-fields p h)
  unmarshal-fields (close_pkt q) (close_pkt p) s r h = rw (unmarshal_close-fields p h)
  unmarshal-fields _ (version_pkt p) s r h = absurd r
  unmarshal-fields _ (handle_pkt p) s r h = absurd r
  unmarshal-fields _ _ s r h = absurd (omega arith)

-- `Unmarshal` into a receiver of the packet's type reads back what `Marshal` wrote, for each packet
-- that has an `Unmarshal`, with fields within their widths and whatever bytes follow.
pub unmarshal-marshal :
    (receiver p : Packet) (rest : Bytes)
    → SameType receiver p
    → IsReadable p
    → IsWirePacket p
    → unmarshal receiver (marshal p ++ rest) ≡ (p, none)
unmarshal-marshal receiver p rest s r h =
    rw (marshal-fields p, append_assoc) (unmarshal-fields (attributes p ++ rest) receiver p s r h)
