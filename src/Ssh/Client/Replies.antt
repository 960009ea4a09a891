-- ===== src/Ssh/Client/Replies.antt =====
-- `ReadResp` on a stream that begins with a well-formed reply of the server.
use flightsim.Prelude.{ℕ, ◌≡◌, ◌≢◌, refl, [], ◌++◌, none, ◌==◌, if◌then◌else◌, arith, append-nil}
use flightsim.Prelude.Bytes.{Bytes}
use flightsim.Ssh.Fxp.Packets.{
  Version, Handle, Status, Packet, version_pkt, handle_pkt, status_pkt, ssh_fx_ok, type_code_status,
  get_code, marshal, marshal_version, marshal_handle, marshal_status,
}
use flightsim.Ssh.Fxp.Reads.{read_uint32-marshal, read_string-marshal}
use flightsim.Ssh.Fxp.RoundTrip.{IsWirePacket, fields, unmarshal_status-fields}
use flightsim.Utils.Marshal.{marshal_string}
use flightsim.Ssh.Result.{IoError, server_message, unexpected_response_type, ok, err}
use flightsim.Ssh.Packet.{version_resp, open_resp, status_resp, parsed}
use flightsim.Ssh.Packet.Frames.{IsFramed, frame, read_packet-frame}
use flightsim.Ssh.Client.{typed_resp, resp_of_packet, read_resp}

version_resp-marshal :
    (p : Version) → IsWirePacket (version_pkt p) → version_resp (marshal_version p) ≡ ok p
unfolding version_resp marshal_version parsed
version_resp-marshal p h = rw (rw append-nil at (read_uint32-marshal none [] p.version h)) refl

status_resp-marshal :
    (p : Status) → IsWirePacket (status_pkt p) → status_resp (marshal_status p) ≡ ok p
unfolding status_resp fields parsed
status_resp-marshal p h = rw (rw append-nil at (unmarshal_status-fields [] p h))

open_resp-marshal : (p : Handle) → IsWirePacket (handle_pkt p) → open_resp (marshal_handle p) ≡ ok p
unfolding open_resp marshal_handle parsed
open_resp-marshal p h =
    rw
      (
        read_uint32-marshal none (marshal_string p.handle) p.id h.0,
        rw append-nil at (read_string-marshal none [] p.handle h.1.0),
      )
      refl

-- The replies that the client asks for.
abbrev pub IsReply : Packet → Type 0
IsReply (version_pkt p) = IsWirePacket (version_pkt p)
IsReply (handle_pkt p) = IsWirePacket (handle_pkt p)
IsReply (status_pkt p) = IsWirePacket (status_pkt p)
IsReply _ = ⊥

pub read_resp-frame :
    (expected : ℕ) (p : Packet) (rest : Bytes) (e : IoError)
    → IsFramed p
    → read_resp expected (record { pending = frame p ++ rest; ending = e })
      ≡ (typed_resp expected (get_code p) (marshal p), record { pending = rest; ending = e })
unfolding read_resp resp_of_packet
read_resp-frame expected p rest e h = rw (read_packet-frame p rest e h) refl

typed_resp-reply :
    (p : Packet) → IsReply p → typed_resp (get_code p) (get_code p) (marshal p) ≡ ok p
unfolding typed_resp get_code marshal
typed_resp-reply (version_pkt p) h = rw (version_resp-marshal p h)
typed_resp-reply (handle_pkt p) h = rw (open_resp-marshal p h)
typed_resp-reply (status_pkt p) h = rw (status_resp-marshal p h)
typed_resp-reply _ h = absurd h

-- `ReadResp` for the type code of a Version, Handle or Status returns that packet from a stream that
-- begins with its frame, and leaves the stream behind it, for a packet with fields within their
-- widths whose length fits the length field.
pub read_resp_reply :
    (p : Packet) (rest : Bytes) (e : IoError)
    → IsReply p
    → IsFramed p
    → read_resp (get_code p) (record { pending = frame p ++ rest; ending = e })
      ≡ (ok p, record { pending = rest; ending = e })
read_resp_reply p rest e h f =
    rw (read_resp-frame (get_code p) p rest e f, typed_resp-reply p h) refl

-- A Status in place of another reply is an error: the server's message if its code is not
-- SSH_FX_OK, and else that the type is unexpected.
pub read_resp_status_out_of_place :
    (expected : ℕ) (s : Status) (rest : Bytes) (e : IoError)
    → expected ≢ type_code_status
    → IsWirePacket (status_pkt s)
    → IsFramed (status_pkt s)
    → (read_resp expected (record { pending = frame (status_pkt s) ++ rest; ending = e })).0
      ≡ err (if s.err_code == ssh_fx_ok then unexpected_response_type else server_message s.err_msg)
unfolding typed_resp get_code marshal
read_resp_status_out_of_place expected s rest e n h f =
    rw (read_resp-frame expected (status_pkt s) rest e f, status_resp-marshal s h) (ground arith)
