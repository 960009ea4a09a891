-- ===== src/Ssh/Transfer.antt =====
-- `WriteRandom` of v2/simulator/ssh/client.go: a file of random data in writes of 1 MB. The random
-- generator is a parameter: `read_random g n` gives `n` bytes and the generator behind them.
pub mod Loop
pub mod Complete
pub mod Server
pub mod Underflow
use flightsim.Prelude.{
  ℕ, zero, suc, ◌+◌, ◌-◌, ◌*◌, ◌/◌, ◌%◌, ◌^◌, Option, none, some, length, ltb, leb, if◌then◌else◌,
}
use flightsim.Prelude.{[]}
use flightsim.Prelude.Bytes.{Bytes}
use flightsim.Ssh.Fxp.Packets.{Handle, Status}
use flightsim.Ssh.Result.{Error, wrapped, failed_transfer, Result, ok, err, panic}
use flightsim.Ssh.Client.{Client, send_open, send_write, send_close}

-- `ByteSize` is a uint64.
abbrev pub u64 : ℕ
u64 = 2 ^ 64

-- 1MB writes.
abbrev pub buff_size : ℕ
buff_size = 1024 * 1024

-- `os.O_CREATE`, by its value on Linux
abbrev pub o_create : ℕ
o_create = 64

pub record WriteResponse : Type 0 where
  pub client_name : Bytes
  pub bytes_sent : ℕ
  pub handle : Bytes
  pub err : Option Error

-- The variables of the loop: the client, the generator, `totalDataBytesSent` and `i`.
pub record Progress (G : Type 0) : Type 0 where
  pub client : Client
  pub gen : G
  pub total : ℕ
  pub i : ℕ

-- `out_of_fuel` is no behaviour of the program: the loop below ran out of rounds.
pub data Outcome : Type 0 where
  done : WriteResponse → Client → Outcome
  crashed : Outcome
  out_of_fuel : Outcome

pub data Step (G : Type 0) : Type 0 where
  more : Progress G → Step G
  stop : Outcome → Step G

abbrev pub respond_with : Client → ℕ → Bytes → Option Error → Outcome
respond_with c total handle e =
    done (record { client_name = c.name; bytes_sent = total; handle = handle; err = e }) c

-- `totalDataBytesSent` after a write. The differences are of uint64s, so they wrap, and the test
-- `dataBytesSent > 0` only tells that the second one is not 0.
unfoldable pub add_sent : ℕ → ℕ → ℕ → ℕ → ℕ
add_sent total payload_size bytes_to_send bytes_sent =
    let pkt_overhead = (bytes_to_send + u64 - payload_size) % u64 in
    let data_bytes_sent = (bytes_sent + u64 - pkt_overhead) % u64 in
    if ltb 0 data_bytes_sent then (total + data_bytes_sent) % u64 else total

unfoldable pub payload_of : ℕ → ℕ
payload_of left_to_send = if leb buff_size left_to_send then buff_size else left_to_send

unfoldable pub after_write : {G : Type 0} → G → Bytes → ℕ → ℕ → Result Status → Client → Step G
after_write gen handle i total (ok status) c =
    more (record { client = c; gen = gen; total = total; i = (i + 1) % u64 })
after_write gen handle i total (err e) c =
    stop (respond_with c total handle (some (wrapped failed_transfer e)))
after_write gen handle i total panic c = stop crashed

unfoldable pub after_close : Bytes → ℕ → Result Status × Client → Outcome
after_close handle total (ok status, c) = respond_with c total handle none
after_close handle total (err e, c) = respond_with c total handle (some e)
after_close handle total (panic, c) = crashed

-- The rounds behind the first go on unless it returned.
abbrev pub next_round : {G : Type 0} → (Progress G → Outcome) → Step G → Outcome
next_round loop (more s) = loop s
next_round loop (stop o) = o

module _ {G : Type 0} (read_random : G → ℕ → Bytes × G) where
  -- One round of the loop, where `total < to_send`.
  unfoldable pub write_step : Bytes → ℕ → Progress G → Step G
  write_step handle to_send s =
      let payload_size = payload_of (to_send - s.total) in
      let (bytes, gen) = read_random s.gen payload_size in
      let (bytes_to_send, bytes_sent, status, c) =
        send_write handle (s.i * buff_size % u64) bytes s.client in
      after_write gen handle s.i (add_sent s.total payload_size bytes_to_send bytes_sent) status c

  unfoldable pub write_loop : ℕ → Bytes → ℕ → Progress G → Outcome
  write_loop zero handle to_send s =
      if ltb s.total to_send
      then out_of_fuel
      else after_close handle s.total (send_close handle s.client)
  write_loop (suc fuel) handle to_send s =
      let round = next_round (write_loop fuel handle to_send) (write_step handle to_send s) in
      if ltb s.total to_send then round else after_close handle s.total (send_close handle s.client)

  unfoldable pub after_open : ℕ → G → Result Handle × Client → Outcome
  after_open to_send gen (err e, c) = respond_with c 0 [] (some e)
  after_open to_send gen (panic, c) = crashed
  after_open to_send gen (ok h, c) =
      write_loop (to_send / buff_size + 1) h.handle to_send
        (record { client = c; gen = gen; total = 0; i = 0 })

  -- The fuel is one round for each megabyte begun, which is enough (Ssh.Transfer.Loop).
  unfoldable pub write_random : Bytes → ℕ → G → Client → Outcome
  write_random handle_str to_send gen c = after_open to_send gen (send_open handle_str o_create c)
