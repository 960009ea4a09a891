-- ===== src/Ssh/Transfer/Complete.antt =====
-- `WriteRandom` as a whole against any server and any writer.
use flightsim.Prelude.{
  Option, none, some, ap, ℕ, zero, suc, ◌+◌, ◌-◌, ◌/◌, ◌<◌, ◌≡◌, refl, ◌∙◌, ◌++◌, arith,
}
use flightsim.Prelude.Bytes.{Bytes}
use flightsim.Ssh.Fxp.Packets.{Handle, Packet, handle_pkt, type_code_handle}
use flightsim.Ssh.Result.{IoError, failed_open, Result, ok, err, panic}
use flightsim.Ssh.Client.{Client, Writer, respond, open_result, read_resp, write_faults, send_open}
use flightsim.Ssh.Transfer.{u64, buff_size, o_create, after_open, write_random}
use flightsim.Ssh.Transfer.Loop.{
  open_frame, close_frame, chunk_frames, RoundsLeft, Succeeds, Succeeds-map, send_open_ok,
  write_loop-Succeeds,
}

-- The chunks of `n` bytes.
abbrev pub chunks : ℕ → ℕ
chunks n = (n + buff_size - 1) / buff_size

pub RoundsLeft-start : (k n : ℕ) → k ≡ chunks n → RoundsLeft k n 0 0
RoundsLeft-start zero n h = omega arith
RoundsLeft-start (suc k) n h = omega arith

-- The server has answered the Open with a Handle.
open_result-ok : (r : Result Packet) (a : Handle) → open_result r ≡ ok a → r ≡ ok (handle_pkt a)
unfolding open_result
open_result-ok (ok (handle_pkt h)) a e = let same : h ≡ a = cc e in ap (λ x. ok (handle_pkt x)) same
open_result-ok (ok _) a e = absurd (cc e)
open_result-ok (err x) a e = absurd (cc e)
open_result-ok panic a e = absurd (cc e)

opened_handle :
    (c : Client) (t : ℕ × Option IoError × Writer) (a : Handle)
    → (respond failed_open type_code_handle open_result c t).1 ≡ ok a
    → (read_resp type_code_handle c.r).0 ≡ ok (handle_pkt a)
opened_handle c (n, none, w) a e = open_result-ok (read_resp type_code_handle c.r).0 a e
opened_handle c (n, some x, w) a e = absurd (cc e)

send_open_handle :
    (name : Bytes) (c : Client) (a : Handle)
    → (send_open name o_create c).0 ≡ ok a
    → (read_resp type_code_handle c.r).0 ≡ ok (handle_pkt a)
unfolding send_open
send_open_handle name c a e =
    opened_handle c (write_faults c.w.faults c.w.sent (open_frame name)) a e

module _ {G : Type 0} (read_random : G → ℕ → Bytes × G) where
  after_open-Succeeds :
      (Q : Handle → Type 0) (n : ℕ) (g : G) (opened : Bytes) (t : Result Handle × Client)
      → n < u64
      → ((a : Handle) → t.0 ≡ ok a → (t.1.w.sent ≡ opened) × Q a)
      → Succeeds
          (λ b h sent.
            (b ≡ n)
            × ((a : Handle) × Q a × (h ≡ a.handle))
            × (sent ≡ opened ++ (chunk_frames read_random (chunks n) h n 0 g ++ close_frame h)))
          (after_open read_random n g t)
  unfolding after_open
  after_open-Succeeds Q n g opened (err e, c) hn sent = λ x. cc
  after_open-Succeeds Q n g opened (panic, c) hn sent = tt
  after_open-Succeeds Q n g opened (ok a, c) hn sent =
      Succeeds-map _
        (λ b h s p. (p.0, (a, (sent a refl).1, p.1), p.2 ∙ simp ((sent a refl).0, p.1)))
        (write_loop-Succeeds read_random (chunks n) (n / buff_size + 1) a.handle n 0 0 g c
          (omega arith) hn (RoundsLeft-start (chunks n) n refl))

  -- `WriteRandom` of fewer than 2 ^ 64 bytes ends by itself or panics, whatever the server answers and
  -- whatever the writer refuses. If it ends and reports no error, then the server has answered with a
  -- Handle; it reports all bytes as sent, and what it put on the wire is an Open, one Write for each
  -- megabyte begun, in order, each with its offset, the handle of that answer and the next bytes of the
  -- generator, and a Close of that handle.
  pub write_random-Succeeds :
      (handle_str : Bytes) (n : ℕ) (g : G) (c : Client)
      → n < u64
      → Succeeds
          (λ b h sent.
            (b ≡ n)
            × ((a : Handle) × ((read_resp type_code_handle c.r).0 ≡ ok (handle_pkt a))
                × (h ≡ a.handle))
            × (sent
                ≡ (c.w.sent ++ open_frame handle_str)
                  ++ (chunk_frames read_random (chunks n) h n 0 g ++ close_frame h)))
          (write_random read_random handle_str n g c)
  unfolding write_random
  write_random-Succeeds handle_str n g c hn =
      after_open-Succeeds (λ a. (read_resp type_code_handle c.r).0 ≡ ok (handle_pkt a)) n g _
        (send_open handle_str o_create c) hn
        (λ a e. (send_open_ok handle_str c a e, send_open_handle handle_str c a e))
