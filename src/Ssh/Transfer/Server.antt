-- ===== src/Ssh/Transfer/Server.antt =====
-- `WriteRandom` against a server that answers each request as the protocol wants, over a writer that
-- takes all bytes: the transfer succeeds.
use flightsim.Prelude.{
  ℕ, zero, suc, ◌+◌, ◌*◌, ◌/◌, ◌%◌, ◌<◌, ◌≤◌, ◌≡◌, refl, List, [], ◌∷◌, ◌++◌, none, length, lt→ltb,
  le→ltb_false, arith, append_assoc, All,
}
use flightsim.Prelude.Bytes.{Bytes}
use flightsim.Ssh.Fxp.Packets.{Handle, Status, handle_pkt, status_pkt, ssh_fx_ok, get_code}
use flightsim.Ssh.Packet.Frames.{frame, IsFramed}
use flightsim.Ssh.Result.{IoError, ok}
use flightsim.Ssh.Client.{
  Client, write_faults, write_result, close_result, open_result, send_open, send_write, send_close,
}
use flightsim.Ssh.Client.Replies.{IsReply, read_resp_reply}
use flightsim.Ssh.Transfer.{
  u64, buff_size, o_create, Outcome, done, crashed, out_of_fuel, after_write, after_close,
  write_step, write_loop, after_open, write_random,
}
use flightsim.Ssh.Transfer.Loop.{
  RoundsLeft, RoundsLeft-next, chunk_size, add_sent_all, payload_of_lem, write_frame, close_frame,
  open_frame,
}
use flightsim.Ssh.Transfer.Complete.{chunks, RoundsLeft-start}

-- A Status that grants a request.
abbrev pub IsGrant : Status → Type 0
IsGrant s = (s.err_code ≡ ssh_fx_ok) × IsReply (status_pkt s) × IsFramed (status_pkt s)

-- The replies of the server, one behind the other.
abbrev pub replies : List Status → Bytes
replies [] = []
replies (s ∷ ss) = frame (status_pkt s) ++ replies ss

-- A client whose writer takes everything, and whose server has `b` to say.
abbrev pub client_of : Bytes → Bytes → Bytes → IoError → Client
client_of name sent b e = record {
  name = name;
  w = record { sent = sent; faults = [] };
  r = record { pending = b; ending = e };
}

abbrev pub Completes : Outcome → Type 0
Completes (done resp c) = resp.err ≡ none
Completes crashed = ⊥
Completes out_of_fuel = ⊥

module _ (name : Bytes) (rest : Bytes) (e : IoError) where
  send_write_granted :
      (handle : Bytes) (offset : ℕ) (payload sent : Bytes) (s : Status)
      → IsGrant s
      → let raw = write_frame handle offset payload in
        send_write handle offset payload (client_of name sent (frame (status_pkt s) ++ rest) e)
        ≡ (length raw, length raw, ok s, client_of name (sent ++ raw) rest e)
  unfolding send_write write_faults write_result get_code
  send_write_granted handle offset payload sent s g =
      rw (read_resp_reply (status_pkt s) rest e g.1 g.2, g.0) refl

  send_close_granted :
      (handle sent : Bytes) (s : Status)
      → IsGrant s
      → send_close handle (client_of name sent (frame (status_pkt s) ++ rest) e)
        ≡ (ok s, client_of name (sent ++ close_frame handle) rest e)
  unfolding send_close write_faults close_result get_code
  send_close_granted handle sent s g = rw (read_resp_reply (status_pkt s) rest e g.1 g.2, g.0) refl

  send_open_granted :
      (filename sent : Bytes) (h : Handle)
      → IsReply (handle_pkt h)
      → IsFramed (handle_pkt h)
      → send_open filename o_create (client_of name sent (frame (handle_pkt h) ++ rest) e)
        ≡ (ok h, client_of name (sent ++ open_frame filename) rest e)
  unfolding send_open write_faults open_result get_code
  send_open_granted filename sent h g f = rw (read_resp_reply (handle_pkt h) rest e g f) refl

module _ {G : Type 0} (read_random : G → ℕ → Bytes × G) (name : Bytes) (e : IoError) where
  write_loop-Completes :
      (k fuel : ℕ) (handle : Bytes) (n i total : ℕ) (g : G) (sent rest : Bytes) (ss : List Status)
      → k ≤ fuel
      → n < u64
      → RoundsLeft k n i total
      → length ss ≡ k + 1
      → All IsGrant ss
      → Completes (
          write_loop read_random fuel handle n (record {
            client = client_of name sent (replies ss ++ rest) e;
            gen = g;
            total = total;
            i = i;
          }))
  unfolding write_loop after_close write_step after_write
  write_loop-Completes k fuel handle n i total g sent rest [] hk hn r len all = absurd (omega arith)
  write_loop-Completes zero zero handle n i total g sent rest (s ∷ ss) hk hn r len all =
      rw
        (
          r,
          le→ltb_false n n (omega arith),
          append_assoc,
          send_close_granted name (replies ss ++ rest) e handle sent s all.0,
        )
        refl
  write_loop-Completes zero (suc fuel) handle n i total g sent rest (s ∷ ss) hk hn r len all =
      rw
        (
          r,
          le→ltb_false n n (omega arith),
          append_assoc,
          send_close_granted name (replies ss ++ rest) e handle sent s all.0,
        )
        refl
  write_loop-Completes (suc k) zero handle n i total g sent rest (s ∷ ss) hk hn r len all =
      absurd (omega arith)
  write_loop-Completes (suc k) (suc fuel) handle n i total g sent rest (s ∷ ss) hk hn r len all =
      let size = chunk_size n i in
      let (bytes, g') = read_random g size in
      let whole : i * buff_size % u64 ≡ i * buff_size = omega arith in
      let next : (i + 1) % u64 ≡ i + 1 = omega arith in
      rw
        (
          lt→ltb total n (omega arith),
          payload_of_lem n i total (omega arith),
          whole,
          append_assoc,
          send_write_granted name (replies ss ++ rest) e handle (i * buff_size) bytes sent s all.0,
          add_sent_all total size (length (write_frame handle (i * buff_size) bytes)) (omega arith)
              (omega arith),
          next,
        )
        (write_loop-Completes k fuel handle n (i + 1) (total + size) g'
          (sent ++ write_frame handle (i * buff_size) bytes) rest ss (omega arith) hn
          (RoundsLeft-next k n i total r) (omega arith) all.1)

  -- `WriteRandom` of fewer than 2 ^ 64 bytes reports no error if the writer takes all bytes and the
  -- server answers with a Handle and then with granting Statuses, one for each megabyte begun and one
  -- for the Close.
  pub write_random-Completes :
      (handle_str : Bytes) (n : ℕ) (g : G) (sent rest : Bytes) (h : Handle) (ss : List Status)
      → n < u64
      → IsReply (handle_pkt h)
      → IsFramed (handle_pkt h)
      → length ss ≡ chunks n + 1
      → All IsGrant ss
      → Completes (
          write_random read_random handle_str n g
            (client_of name sent (frame (handle_pkt h) ++ (replies ss ++ rest)) e))
  unfolding write_random after_open
  write_random-Completes handle_str n g sent rest h ss hn reply framed len all =
      rw (send_open_granted name (replies ss ++ rest) e handle_str sent h reply framed) (
        write_loop-Completes (chunks n) (n / buff_size + 1) h.handle n 0 0 g _ rest ss (omega arith)
          hn (RoundsLeft-start (chunks n) n refl) len all)
