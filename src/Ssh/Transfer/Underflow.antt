-- ===== src/Ssh/Transfer/Underflow.antt =====
-- The count of bytes sent after a write that fails in the header of its packet: the uint64
-- difference `bytesSent - pktOverhead` wraps.
use flightsim.Prelude.{
  ℕ, suc, ◌+◌, ◌-◌, ◌*◌, ◌%◌, ◌^◌, ◌<◌, ◌≤◌, ◌≡◌, refl, ◌∙◌, ap, List, ◌∷◌, some, Option, length,
  min, lt→ltb, arith, length-append,
}
use flightsim.Prelude.Bytes.{Bytes}
use flightsim.Utils.Marshal.RoundTrip.{
  length-marshal_uint32, length-marshal_uint64, length-marshal_string,
}
use flightsim.Ssh.Fxp.Packets.{write_pkt, marshal, marshal_write}
use flightsim.Ssh.Packet.{Reader}
use flightsim.Ssh.Packet.Frames.{frame, length-frame}
use flightsim.Ssh.Result.{IoError, Error, io, wrapped, failed_write, failed_transfer}
use flightsim.Ssh.Client.{Client, write_faults, send_write, req_id}
use flightsim.Ssh.Transfer.{
  u64, buff_size, Outcome, done, crashed, out_of_fuel, add_sent, after_write, write_step,
  write_loop,
}
use flightsim.Ssh.Transfer.Loop.{chunk_size, payload_of_lem}

-- The bytes of a Write packet in front of its data.
abbrev pub overhead : Bytes → ℕ
overhead handle = 25 + length handle

marshal_write_length :
    (handle : Bytes) (offset : ℕ) (payload : Bytes)
    → length (
        marshal
          (write_pkt (record { id = req_id; handle = handle; offset = offset; payload = payload })))
      ≡ 20 + length handle + length payload
unfolding marshal marshal_write
marshal_write_length handle offset payload = rw length-append (
    rw length-append (
      rw length-append (
        omega (
          arith,
          length-marshal_uint32 req_id,
          length-marshal_string handle,
          length-marshal_uint64 offset,
          length-marshal_string payload,
        ))))

add_sent_short :
    (total payload_size n m : ℕ)
    → payload_size ≤ n
    → n < u64
    → m < n - payload_size
    → add_sent total payload_size n m ≡ (total + (u64 - (n - payload_size - m))) % u64
unfolding add_sent
add_sent_short total payload_size n m h k l = ground arith

-- A call of `Write` that fails.
abbrev pub faulty : Bytes → ℕ → IoError → List (Option (ℕ × IoError)) → Bytes → Reader → Client
faulty name m x fs sent r = record {
  name = name;
  w = record { sent = sent; faults = some (m, x) ∷ fs };
  r = r;
}

-- The outcome's count of bytes sent and its error.
abbrev pub Reports : ℕ → Error → Outcome → Type 0
Reports b e (done resp c) = (resp.bytes_sent ≡ b) × (resp.err ≡ some e)
Reports b e crashed = ⊥
Reports b e out_of_fuel = ⊥

module _ {G : Type 0} (read_random : G → ℕ → Bytes × G) where
  -- In the loop of `WriteRandom`, at round `i` with `i` megabytes of fewer than 2 ^ 64 sent, if the
  -- call of `Write` fails after `m` bytes and these do not even hold the header of the packet, the
  -- loop returns that error, and its count of bytes is not the `total` sent so far, but `total` plus
  -- 2 ^ 64 less the missing bytes of the header, taken modulo 2 ^ 64. The handle is shorter than
  -- 2 ^ 31 bytes and the generator gives as many bytes as asked.
  pub write_loop_underflow :
      (fuel : ℕ) (handle name sent : Bytes) (n i total m : ℕ) (g : G) (x : IoError)
      (fs : List (Option (ℕ × IoError))) (r : Reader)
      → total ≡ i * buff_size
      → total < n
      → n < u64
      → length handle < 2 ^ 31
      → length (read_random g (chunk_size n i)).0 ≡ chunk_size n i
      → m < overhead handle
      → Reports
          ((total + (u64 - (overhead handle - m))) % u64)
          (wrapped failed_transfer (wrapped failed_write (io x)))
          (write_loop read_random
            (suc fuel)
            handle
            n
            (record { client = faulty name m x fs sent r; gen = g; total = total; i = i }))
  unfolding write_loop write_step after_write send_write write_faults
  write_loop_underflow fuel handle name sent n i total m g x fs r e lt hn small full short =
      let bytes = (read_random g (chunk_size n i)).0 in
      let whole : i * buff_size % u64 ≡ i * buff_size = omega arith in
      let packet =
        write_pkt
          (record { id = req_id; handle = handle; offset = i * buff_size; payload = bytes }) in
      let size = marshal_write_length handle (i * buff_size) bytes in
      let len = length-frame packet (omega (arith, size, full)) in
      let gap : length (frame packet) - chunk_size n i - min m (length (frame packet))
          ≡ overhead handle - m =
        omega (arith, size, len, full) in
      rw (lt→ltb total n lt, payload_of_lem n i total e, whole)
        (
          add_sent_short total (chunk_size n i) (length (frame packet))
                (min m (length (frame packet))) (omega (arith, size, len, full))
                (omega (arith, size, len, full)) (omega (arith, size, len, full))
              ∙ ap (λ (d : ℕ). (total + (u64 - d)) % u64) gap,
          refl,
        )
