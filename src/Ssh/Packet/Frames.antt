-- ===== src/Ssh/Packet/Frames.antt =====
-- Frames on the wire: their length, and `ReadPacket` on a stream that begins with one.
use flightsim.Prelude.{
  ℕ, ◌+◌, ◌^◌, ◌<◌, ◌≡◌, refl, sym, ◌∷◌, ◌++◌, none, arith, length, append_assoc, length-append,
  take-append, drop-append, le→ltb_false,
}
use flightsim.Prelude.Bytes.{Bytes}
use flightsim.Utils.Marshal.{marshal_uint32}
use flightsim.Utils.Marshal.RoundTrip.{length-marshal_uint32, unmarshal_uint32-marshal_uint32}
use flightsim.Ssh.Fxp.Packets.{Packet, marshal, get_code}
use flightsim.Ssh.Result.{IoError}
use flightsim.Ssh.Packet.{make_raw_packet, marshal_raw, read_full, read_packet}

-- The packet's length fits the length field.
abbrev pub IsFramed : Packet → Type 0
IsFramed p = length (marshal p) + 1 < 2 ^ 32

-- The bytes of a packet on the wire.
abbrev pub frame : Packet → Bytes
frame p = marshal_raw (make_raw_packet p)

pub frame_lem :
    (p : Packet)
    → IsFramed p
    → frame p ≡ marshal_uint32 (length (marshal p) + 1) ++ (get_code p ∷ marshal p)
unfolding marshal_raw
frame_lem p h = ground arith

pub length-frame : (p : Packet) → IsFramed p → length (frame p) ≡ 5 + length (marshal p)
length-frame p h = rw (frame_lem p h) (
    omega (
      arith,
      length-append (marshal_uint32 (length (marshal p) + 1)) (get_code p ∷ marshal p),
      length-marshal_uint32 (length (marshal p) + 1),
    ))

pub read_full-append :
    (xs rest : Bytes) (e : IoError) (n : ℕ)
    → n ≡ length xs
    → read_full n (record { pending = xs ++ rest; ending = e })
      ≡ (xs, none, record { pending = rest; ending = e })
unfolding read_full
read_full-append xs rest e n h =
    rw
      (
        le→ltb_false (length (xs ++ rest)) n (omega (arith, length-append xs rest)),
        take-append n xs rest h,
        drop-append n xs rest h,
      )
      refl

-- `ReadPacket` on a stream that begins with the frame of a packet returns the type code and the
-- packet's bytes with no error, and leaves the stream behind the frame, for a packet whose length
-- fits the length field.
pub read_packet-frame :
    (p : Packet) (rest : Bytes) (e : IoError)
    → IsFramed p
    → read_packet (record { pending = frame p ++ rest; ending = e })
      ≡ (get_code p ∷ marshal p, none, record { pending = rest; ending = e })
unfolding read_packet
read_packet-frame p rest e h =
    let n : ℕ = length (marshal p) + 1 in
    rw
      (
        frame_lem p h,
        append_assoc,
        read_full-append (marshal_uint32 n) ((get_code p ∷ marshal p) ++ rest) e 4
            (sym (length-marshal_uint32 n)),
        unmarshal_uint32-marshal_uint32 n h,
        read_full-append (get_code p ∷ marshal p) rest e n (omega arith),
      )
      refl
