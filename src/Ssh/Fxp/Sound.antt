-- ===== src/Ssh/Fxp/Sound.antt =====
-- `Unmarshal` on any input: what it accepts is the marshalled form of what it returns, so it refuses
-- every truncated packet.
use flightsim.Prelude.{
  ℕ, ◌≡◌, ◌≢◌, refl, ap, ◌∙◌, [], ◌∷◌, ◌++◌, none, arith, length, All, append_assoc, append-nil,
  length-append,
}
use flightsim.Prelude.Bytes.{Bytes, IsByte}
use flightsim.Ssh.Fxp.Parser.{FieldParser, new_field_parser, read_uint32, read_uint64, read_string}
use flightsim.Ssh.Fxp.Reads.{
  Reads-append, read_uint32-Reads, read_uint64-Reads, read_string-Reads, read_uint32_clean,
  read_uint64_clean, read_string_clean,
}
use flightsim.Ssh.Fxp.Packets.{
  Packet, version_pkt, handle_pkt, status_pkt, init_pkt, open_pkt, write_pkt, close_pkt, get_code,
  unmarshal, marshal_status, unmarshal_status, marshal_init, unmarshal_init, unmarshal_open,
  marshal_write, unmarshal_write, marshal_close, unmarshal_close,
}
use flightsim.Ssh.Fxp.RoundTrip.{IsWirePacket, fields, IsReadable, SameType, unmarshal-fields}

-- The input is the fields of `p` and some rest, and they fit their widths.
abbrev pub Holds : Bytes → Packet → Type 0
Holds input p = (rest : Bytes) × (input ≡ fields p ++ rest) × IsWirePacket p

module _ (input : Bytes) (bytes : All IsByte input) where
  start : FieldParser
  start = new_field_parser input

  unmarshal_init-Holds :
      (unmarshal_init input).1 ≡ none → Holds input (init_pkt (unmarshal_init input).0)
  unfolding unmarshal_init fields marshal_init start
  unmarshal_init-Holds e = let (r, small) = read_uint32-Reads start bytes e in (_, r.taken, small)

  unmarshal_close-Holds :
      (unmarshal_close input).1 ≡ none → Holds input (close_pkt (unmarshal_close input).0)
  unfolding unmarshal_close fields marshal_close start
  unmarshal_close-Holds e =
      let (r1, h1) = read_uint32-Reads start bytes (read_string_clean _ e) in
      let (r2, h2) = read_string-Reads (read_uint32 start).1 r1.bytes_left e in
      (_, (Reads-append r1 r2).taken, (h1, h2))

  unmarshal_open-Holds :
      (unmarshal_open input).1 ≡ none → Holds input (open_pkt (unmarshal_open input).0)
  unfolding unmarshal_open fields start
  unmarshal_open-Holds e =
      let e2 = read_uint32_clean _ e in
      let (r1, h1) = read_uint32-Reads start bytes (read_string_clean _ e2) in
      let (r2, h2) = read_string-Reads (read_uint32 start).1 r1.bytes_left e2 in
      let (r3, h3) = read_uint32-Reads (read_string (read_uint32 start).1).1 r2.bytes_left e in
      (_, (Reads-append r1 (Reads-append r2 r3)).taken, (h1, h2, h3))

  unmarshal_write-Holds :
      (unmarshal_write input).1 ≡ none → Holds input (write_pkt (unmarshal_write input).0)
  unfolding unmarshal_write fields marshal_write start
  unmarshal_write-Holds e =
      let e3 = read_string_clean _ e in
      let e2 = read_uint64_clean _ e3 in
      let (r1, h1) = read_uint32-Reads start bytes (read_string_clean _ e2) in
      let (r2, h2) = read_string-Reads (read_uint32 start).1 r1.bytes_left e2 in
      let (r3, h3) = read_uint64-Reads (read_string (read_uint32 start).1).1 r2.bytes_left e3 in
      let (r4, h4) =
        read_string-Reads (read_uint64 (read_string (read_uint32 start).1).1).1 r3.bytes_left e in
      (_, (Reads-append r1 (Reads-append r2 (Reads-append r3 r4))).taken, (h1, h2, h3, h4))

  pub unmarshal_status-Holds :
      (unmarshal_status input).1 ≡ none → Holds input (status_pkt (unmarshal_status input).0)
  unfolding unmarshal_status fields marshal_status start
  unmarshal_status-Holds e =
      let e3 = read_string_clean _ e in
      let e2 = read_string_clean _ e3 in
      let (r1, h1) = read_uint32-Reads start bytes (read_uint32_clean _ e2) in
      let (r2, h2) = read_uint32-Reads (read_uint32 start).1 r1.bytes_left e2 in
      let (r3, h3) = read_string-Reads (read_uint32 (read_uint32 start).1).1 r2.bytes_left e3 in
      let (r4, h4) =
        read_string-Reads (read_string (read_uint32 (read_uint32 start).1).1).1 r3.bytes_left e in
      (_, (Reads-append r1 (Reads-append r2 (Reads-append r3 r4))).taken, (h1, h2, h3, h4))

  -- `Unmarshal` of a byte string succeeds only on the fields of the packet that it returns, each
  -- within its width, with some bytes behind them.
  pub unmarshal-Holds :
      (receiver : Packet)
      → (unmarshal receiver input).1 ≡ none
      → Holds input (unmarshal receiver input).0
  unfolding unmarshal
  unmarshal-Holds (version_pkt q) e = cc
  unmarshal-Holds (handle_pkt q) e = cc
  unmarshal-Holds (status_pkt q) e = unmarshal_status-Holds e
  unmarshal-Holds (init_pkt q) e = unmarshal_init-Holds e
  unmarshal-Holds (open_pkt q) e = unmarshal_open-Holds e
  unmarshal-Holds (write_pkt q) e = unmarshal_write-Holds e
  unmarshal-Holds (close_pkt q) e = unmarshal_close-Holds e

unmarshal-SameType :
    (receiver : Packet) (input : Bytes) → SameType receiver (unmarshal receiver input).0
unfolding unmarshal get_code
unmarshal-SameType (version_pkt q) input = refl
unmarshal-SameType _ input = refl

unmarshal-IsReadable :
    (receiver : Packet) (input : Bytes)
    → (unmarshal receiver input).1 ≡ none
    → IsReadable (unmarshal receiver input).0
unfolding unmarshal
unmarshal-IsReadable (version_pkt q) input e = cc
unmarshal-IsReadable (handle_pkt q) input e = cc
unmarshal-IsReadable _ input e = tt

-- `Unmarshal` gives an error on every proper prefix `front` of the fields of a packet of the
-- receiver's type, for fields within their widths.
pub unmarshal_truncated :
    (receiver p : Packet) (front back : Bytes) (b : ℕ)
    → SameType receiver p
    → IsReadable p
    → IsWirePacket p
    → All IsByte front
    → fields p ≡ front ++ (b ∷ back)
    → (unmarshal receiver front).1 ≢ none
unmarshal_truncated receiver p front back b s r h bytes e accepted =
    let (rest, split, h') = unmarshal-Holds front bytes receiver accepted in
    let q = (unmarshal receiver front).0 in
    let whole : fields p ≡ fields q ++ (rest ++ (b ∷ back)) =
      e ∙ ap (λ (x : Bytes). x ++ (b ∷ back)) split ∙ append_assoc (fields q) rest (b ∷ back) in
    let as_p : unmarshal receiver (fields p) ≡ (p, none) =
      rw (append-nil (fields p)) at (unmarshal-fields [] receiver p s r h) in
    let as_q : unmarshal receiver (fields p) ≡ (q, none) = rw whole (
      unmarshal-fields (rest ++ (b ∷ back)) receiver q (unmarshal-SameType receiver front)
        (unmarshal-IsReadable receiver front accepted) h') in
    let same : p ≡ q = cc in
    omega (
      arith,
      ap length (rw (← same) at whole),
      length-append (fields p) (rest ++ (b ∷ back)),
      length-append rest (b ∷ back),
    )
