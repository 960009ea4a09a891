-- ===== src/Ssh/Transfer/Loop.antt =====
-- The loop of `WriteRandom` against any server and any writer: it ends, and without an error it has
-- sent all data, cut into megabytes, with an Open before and a Close behind.
use flightsim.Prelude.{
  ℕ, zero, suc, ◌+◌, ◌-◌, ◌*◌, ◌%◌, ◌<◌, ◌≤◌, ◌≡◌, refl, ◌∙◌, List, [], ◌∷◌, ◌++◌, Option, none,
  some, length, lt→ltb, le→ltb_false, min, arith, append_assoc,
}
use flightsim.Prelude.Bytes.{Bytes}
use flightsim.Ssh.Fxp.Packets.{
  Handle, Status, Packet, type_code_handle, type_code_status, write_pkt, close_pkt, open_pkt,
}
use flightsim.Ssh.Packet.Frames.{frame}
use flightsim.Ssh.Result.{
  IoError, Context, failed_open, failed_write, failed_close, Result, ok, err, panic,
}
use flightsim.Ssh.Client.{
  Client, Writer, send_open, send_write, send_close, write_faults, write_result, close_result,
  open_result, respond, req_id,
}
use flightsim.Ssh.Transfer.{
  u64, buff_size, o_create, Progress, Outcome, done, crashed, out_of_fuel, next_round, add_sent,
  payload_of, after_write, after_close, write_step, write_loop,
}

-- A call of `Write` with no error has taken all bytes.
write_faults-none :
    (faults : List (Option (ℕ × IoError))) (sent b : Bytes)
    → (write_faults faults sent b).1 ≡ none
    → ((write_faults faults sent b).0 ≡ length b)
      × ((write_faults faults sent b).2.sent ≡ sent ++ b)
unfolding write_faults
write_faults-none [] sent b h = (refl, refl)
write_faults-none (none ∷ fs) sent b h = (refl, refl)
write_faults-none (some (n, e) ∷ fs) sent b h = cc

-- A request that gets an answer has put its packet on the wire whole.
respond_ok :
    {A : Type 0} (context : Context) (expected : ℕ) (finish : Result Packet → Result A) (c : Client)
    (b : Bytes) (t : ℕ × Option IoError × Writer) {a : A}
    → (t.1 ≡ none → (t.0 ≡ length b) × (t.2.sent ≡ c.w.sent ++ b))
    → (respond context expected finish c t).1 ≡ ok a
    → ((respond context expected finish c t).0 ≡ length b)
      × ((respond context expected finish c t).2.w.sent ≡ c.w.sent ++ b)
respond_ok context expected finish c b (n, none, w) sent h = sent refl
respond_ok context expected finish c b (n, some e, w) sent h = cc

abbrev pub write_frame : Bytes → ℕ → Bytes → Bytes
write_frame handle offset payload =
    frame (write_pkt (record { id = req_id; handle = handle; offset = offset; payload = payload }))

abbrev pub close_frame : Bytes → Bytes
close_frame handle = frame (close_pkt (record { id = req_id; handle = handle }))

abbrev pub open_frame : Bytes → Bytes
open_frame name = frame (open_pkt (record { id = req_id; filename = name; flags = o_create }))

-- A write that succeeds has put its whole frame on the wire.
send_write_ok :
    (handle : Bytes) (offset : ℕ) (payload : Bytes) (c : Client) (s : Status)
    → let r = send_write handle offset payload c in
      r.2 ≡ ok s → (r.1 ≡ r.0) × (r.3.w.sent ≡ c.w.sent ++ write_frame handle offset payload)
unfolding send_write
send_write_ok handle offset payload c s h =
    respond_ok failed_write type_code_status write_result c (write_frame handle offset payload) _
      (write_faults-none c.w.faults c.w.sent (write_frame handle offset payload)) h

pub send_open_ok :
    (name : Bytes) (c : Client) (a : Handle)
    → (send_open name o_create c).0 ≡ ok a
    → (send_open name o_create c).1.w.sent ≡ c.w.sent ++ open_frame name
unfolding send_open
send_open_ok name c a h =
    (respond_ok failed_open type_code_handle open_result c (open_frame name) _
      (write_faults-none c.w.faults c.w.sent (open_frame name)) h).1

send_close_ok :
    (handle : Bytes) (c : Client) (a : Status)
    → (send_close handle c).0 ≡ ok a
    → (send_close handle c).1.w.sent ≡ c.w.sent ++ close_frame handle
unfolding send_close
send_close_ok handle c a h =
    (respond_ok failed_close type_code_status close_result c (close_frame handle) _
      (write_faults-none c.w.faults c.w.sent (close_frame handle)) h).1

pub add_sent_all :
    (total payload_size n : ℕ)
    → payload_size < u64
    → total + payload_size < u64
    → add_sent total payload_size n n ≡ total + payload_size
unfolding add_sent
add_sent_all total payload_size n h k = ground arith

-- The loop or transfer ended by itself, and what it says if there is no error.
abbrev pub Succeeds : (ℕ → Bytes → Bytes → Type 0) → Outcome → Type 0
Succeeds P (done resp c) = resp.err ≡ none → P resp.bytes_sent resp.handle c.w.sent
Succeeds P crashed = Unit
Succeeds P out_of_fuel = ⊥

pub Succeeds-map :
    {P Q : ℕ → Bytes → Bytes → Type 0} (o : Outcome)
    → ((b : ℕ) (h s : Bytes) → P b h s → Q b h s)
    → Succeeds P o
    → Succeeds Q o
Succeeds-map (done resp c) f p = λ e. f resp.bytes_sent resp.handle c.w.sent (p e)
Succeeds-map crashed f p = tt
Succeeds-map out_of_fuel f p = absurd p

-- The size of the `i`-th chunk of `n` bytes.
abbrev pub chunk_size : ℕ → ℕ → ℕ
chunk_size n i = min buff_size (n - i * buff_size)

-- At the head of the loop `k` chunks are left, and the chunks before the `i`-th are sent.
abbrev pub RoundsLeft : ℕ → ℕ → ℕ → ℕ → Type 0
RoundsLeft zero n i total = total ≡ n
RoundsLeft (suc k) n i total =
    (total ≡ i * buff_size)
    × (i * buff_size + k * buff_size < n)
    × (n ≤ i * buff_size + k * buff_size + buff_size)

pub RoundsLeft-next :
    (k n i total : ℕ)
    → RoundsLeft (suc k) n i total
    → RoundsLeft k n (i + 1) (total + chunk_size n i)
RoundsLeft-next zero n i total h = omega arith
RoundsLeft-next (suc k) n i total h = omega arith

pub payload_of_lem :
    (n i total : ℕ) → total ≡ i * buff_size → payload_of (n - total) ≡ chunk_size n i
unfolding payload_of
payload_of_lem n i total h = ground arith

after_close-Succeeds :
    (handle : Bytes) (n : ℕ) (sent : Bytes) (t : Result Status × Client)
    → ((a : Status) → t.0 ≡ ok a → t.1.w.sent ≡ sent)
    → Succeeds (λ b h s. (b ≡ n) × (h ≡ handle) × (s ≡ sent)) (after_close handle n t)
unfolding after_close
after_close-Succeeds handle n sent (ok a, c) h = λ e. (refl, refl, h a refl)
after_close-Succeeds handle n sent (err x, c) h = λ e. cc
after_close-Succeeds handle n sent (panic, c) h = tt

next_round-Succeeds :
    {G : Type 0} (P : ℕ → Bytes → Bytes → Type 0) (loop : Progress G → Outcome) (g : G)
    (handle : Bytes) (i total : ℕ) (status : Result Status) (c : Client)
    → ((a : Status)
        → status ≡ ok a
        → Succeeds P (loop (record { client = c; gen = g; total = total; i = (i + 1) % u64 })))
    → Succeeds P (next_round loop (after_write g handle i total status c))
unfolding after_write
next_round-Succeeds P loop g handle i total (ok a) c h = h a refl
next_round-Succeeds P loop g handle i total (err e) c h = λ x. cc
next_round-Succeeds P loop g handle i total panic c h = tt

module _ {G : Type 0} (read_random : G → ℕ → Bytes × G) where
  -- The Write packets of `k` chunks of `n` bytes, from the `i`-th on: each at its offset, with the
  -- next bytes of the generator.
  unfoldable pub chunk_frames : ℕ → Bytes → ℕ → ℕ → G → Bytes
  chunk_frames zero handle n i g = []
  chunk_frames (suc k) handle n i g =
      let (bytes, g') = read_random g (chunk_size n i) in
      write_frame handle (i * buff_size) bytes ++ chunk_frames k handle n (i + 1) g'

  write_step-Succeeds :
      (P : ℕ → Bytes → Bytes → Type 0) (handle : Bytes) (n i total : ℕ) (g : G) (c : Client)
      (loop : Progress G → Outcome)
      → total ≡ i * buff_size
      → total < n
      → n < u64
      → let (bytes, g') = read_random g (chunk_size n i) in
        let sent = send_write handle (i * buff_size) bytes c in
        ((a : Status)
          → sent.2 ≡ ok a
          → Succeeds P (
              loop
                (record { client = sent.3; gen = g'; total = total + chunk_size n i; i = i + 1 })))
        → Succeeds P (
            next_round loop (
              write_step read_random handle n
                (record { client = c; gen = g; total = total; i = i })))
  unfolding write_step
  write_step-Succeeds P handle n i total g c loop e lt hn h =
      let size = chunk_size n i in
      let bytes = (read_random g size).0 in
      let whole : i * buff_size % u64 ≡ i * buff_size = omega arith in
      rw (payload_of_lem n i total e, whole)
        (next_round-Succeeds P loop _ handle i _ _ _ (λ a ok_a.
          let (all, wire) = send_write_ok handle (i * buff_size) bytes c a ok_a in
          let next : (i + 1) % u64 ≡ i + 1 = omega arith in
          rw (all, add_sent_all total size _ (omega arith) (omega arith), next) (h a ok_a)))

  pub write_loop-Succeeds :
      (k fuel : ℕ) (handle : Bytes) (n i total : ℕ) (g : G) (c : Client)
      → k ≤ fuel
      → n < u64
      → RoundsLeft k n i total
      → Succeeds
          (λ b h sent.
            (b ≡ n)
            × (h ≡ handle)
            × (sent ≡ c.w.sent ++ (chunk_frames k handle n i g ++ close_frame handle)))
          (write_loop read_random fuel handle n
            (record { client = c; gen = g; total = total; i = i }))
  unfolding write_loop chunk_frames
  write_loop-Succeeds zero zero handle n i total g c hk hn r =
      rw (r, le→ltb_false n n (omega arith))
        (after_close-Succeeds handle n (c.w.sent ++ close_frame handle) (send_close handle c)
          (send_close_ok handle c))
  write_loop-Succeeds zero (suc fuel) handle n i total g c hk hn r =
      rw (r, le→ltb_false n n (omega arith))
        (after_close-Succeeds handle n (c.w.sent ++ close_frame handle) (send_close handle c)
          (send_close_ok handle c))
  write_loop-Succeeds (suc k) zero handle n i total g c hk hn r = absurd (omega arith)
  write_loop-Succeeds (suc k) (suc fuel) handle n i total g c hk hn r =
      rw (lt→ltb total n (omega arith)) (
        write_step-Succeeds _ handle n i total g c (write_loop read_random fuel handle n) r.0
          (omega arith) hn
          (λ a e.
            Succeeds-map _
              (λ b h s p. (
                p.0,
                p.1,
                p.2 ∙ simp ((send_write_ok handle (i * buff_size) _ c a e).1, append_assoc),
              ))
              (write_loop-Succeeds k fuel handle n (i + 1) (total + chunk_size n i) _ _
                (omega arith) hn (RoundsLeft-next k n i total r))))
