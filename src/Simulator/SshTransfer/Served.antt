-- ===== src/Simulator/SshTransfer/Served.antt =====
-- `Simulate` (v2/simulator/ssh-transfer.go) over servers that answer as the protocol wants.
use mathlib.Core.List.{Permᴰ}
use flightsim.Prelude.{
  ℕ, suc, ◌+◌, ◌^◌, ◌<◌, ◌≤◌, ◌≡◌, ◌⊎◌, inl, inr, refl, ◌∙◌, false, List, [], ◌∷◌, ◌++◌, none, some,
  length, All, arith,
}
use flightsim.Prelude.Bytes.{Bytes, codes, itoa}
use flightsim.Utils.Conn.{compute_sender_sizes}
use flightsim.Utils.Conn.Sizes.{compute_sender_sizes_parts}
use flightsim.Ssh.Fxp.Packets.{Version, Handle, Status, version_pkt, handle_pkt, init_pkt, get_code}
use flightsim.Ssh.Packet.Frames.{frame, IsFramed}
use flightsim.Ssh.Result.{Result, ok, IoError}
use flightsim.Ssh.Client.{Client, client_ver, write_faults, init_result, send_init}
use flightsim.Ssh.Client.Replies.{IsReply, read_resp_reply}
use flightsim.Ssh.Transfer.{WriteResponse, u64, Outcome, done, crashed, out_of_fuel}
use flightsim.Ssh.Transfer.Complete.{chunks}
use flightsim.Ssh.Transfer.Server.{IsGrant, replies, client_of, Completes, write_random-Completes}
use flightsim.Simulator.SshTransfer.{
  SshTransfer, mb, new_client, Delivery, delivered, killed, unfinished, written, simulate_client,
  worker, success,
}
use flightsim.Simulator.SshTransfer.Schedule.{
  Task, goroutines, Transfers, Turn, send, crash, tear_down, receive, Schedule, begin, next,
  summary,
}
use flightsim.Simulator.SshTransfer.Interleaved.{Schedule-All}
use flightsim.Simulator.SshTransfer.Collect.{errors, errors-perm}
use flightsim.Simulator.SshTransfer.Outcomes.{collect-arrived}
use flightsim.Simulator.SshTransfer.Concurrent.{
  Delivers, part-le-sum, length-perm, simulate_received, simulate_ends,
}

-- The server of a client: it answers the Init with the version that the client expects, and the
-- requests of a transfer of `size` bytes as `write_random-Completes` wants.
pub record Serves (name : Bytes) (size : ℕ) (connected : Result Client) : Type 0 where
  pub version : Version
  pub handle : Handle
  pub statuses : List Status
  pub rest : Bytes
  pub ending : IoError
  pub expected : version.version ≡ client_ver
  pub version_reply : IsReply (version_pkt version)
  pub version_framed : IsFramed (version_pkt version)
  pub handle_reply : IsReply (handle_pkt handle)
  pub handle_framed : IsFramed (handle_pkt handle)
  pub enough : length statuses ≡ chunks size + 1
  pub granted : All IsGrant statuses
  pub connection :
      connected
      ≡ ok (
          client_of name []
            (frame (version_pkt version)
              ++ (frame (handle_pkt handle) ++ (replies statuses ++ rest)))
            ending)

-- A response without an error.
abbrev pub IsDone : Delivery → Type 0
IsDone (delivered r) = r.err ≡ none
IsDone killed = ⊥
IsDone unfinished = ⊥

abbrev init_frame : Bytes
init_frame = frame (init_pkt (record { version = client_ver }))

send_init_answered :
    (name sent rest : Bytes) (e : IoError) (v : Version)
    → IsReply (version_pkt v)
    → IsFramed (version_pkt v)
    → send_init (client_of name sent (frame (version_pkt v) ++ rest) e)
      ≡ (ok v, client_of name (sent ++ init_frame) rest e)
unfolding send_init write_faults init_result get_code
send_init_answered name sent rest e v g f = rw (read_resp_reply (version_pkt v) rest e g f) refl

new_client_answered :
    (name rest : Bytes) (e : IoError) (v : Version)
    → v.version ≡ client_ver
    → IsReply (version_pkt v)
    → IsFramed (version_pkt v)
    → new_client (ok (client_of name [] (frame (version_pkt v) ++ rest) e))
      ≡ record { client = ok (client_of name init_frame rest e); teardowns = 0 }
unfolding new_client
new_client_answered name rest e v same g f = rw (send_init_answered name [] rest e v g f, same) refl

written-IsDone : (torn : ℕ) (o : Outcome) → Completes o → IsDone (written torn o).delivery
written-IsDone torn (done r c) h = h
written-IsDone torn crashed h = absurd h
written-IsDone torn out_of_fuel h = absurd h

module _ {G : Type 0} (read_random : G → ℕ → Bytes × G) (gen : ℕ → G)
    (connect : Bytes → Result Client) where
  worker-IsDone :
      (i size : ℕ)
      → size < u64
      → Serves (codes "alphasoc-" ++ itoa i) size (connect (codes "alphasoc-" ++ itoa i))
      → IsDone (worker read_random (gen i) connect i size).delivery
  unfolding worker simulate_client
  worker-IsDone i size small s =
      let name = codes "alphasoc-" ++ itoa i in
      let later = frame (handle_pkt s.handle) ++ (replies s.statuses ++ s.rest) in
      rw
        (
          s.connection,
          new_client_answered name later s.ending s.version s.expected s.version_reply
              s.version_framed,
        )
        (written-IsDone 0 _ (
          write_random-Completes read_random name s.ending
            (codes "flightsim-ssh-transfer-" ++ itoa i) size (gen i) init_frame s.rest s.handle
            s.statuses small s.handle_reply s.handle_framed s.enough s.granted))

  -- The servers of the clients from number `i` on.
  abbrev pub ServesAll : ℕ → List ℕ → Type 0
  ServesAll i [] = Unit {0}
  ServesAll i (size ∷ parts) =
      Serves (codes "alphasoc-" ++ itoa i) size (connect (codes "alphasoc-" ++ itoa i))
      × ServesAll (suc i) parts

  goroutines-IsDone :
      (i : ℕ) (parts : List ℕ)
      → All (λ size. size < u64) parts
      → ServesAll i parts
      → All (λ t. IsDone t.delivery) (goroutines read_random gen connect i parts)
  unfolding goroutines
  goroutines-IsDone i [] small served = tt
  goroutines-IsDone i (size ∷ parts) (lt, small) (s, served) =
      (worker-IsDone i size lt s, goroutines-IsDone (suc i) parts small served)

  errors-Delivers :
      (i : ℕ) (parts : List ℕ) (rs : List WriteResponse)
      → All (λ size. size < u64) parts
      → ServesAll i parts
      → Delivers read_random gen connect i parts rs
      → errors rs ≡ []
  unfolding errors
  errors-Delivers i [] [] small served each = refl
  errors-Delivers i [] (r ∷ rs) small served each = absurd each
  errors-Delivers i (size ∷ parts) [] small served each = absurd each
  errors-Delivers i (size ∷ parts) (r ∷ rs) (lt, small) (s, served) (e, each) =
      let fine : r.err ≡ none = rw e at (worker-IsDone i size lt s) in
      rw fine (errors-Delivers (suc i) parts rs small served each)

-- No step crashes the program if no goroutine panics.
Turn-crashed :
    {capacity : ℕ} {s t : Transfers}
    → Turn capacity s t
    → All (λ task. IsDone task.delivery) s.waiting
    → t.crashed ≡ false
Turn-crashed (send _ _ _ _ _ _ _ _) h = refl
Turn-crashed (crash front back closes closing channel got) h = absurd (bad front h)
  where
    bad :
        (front : List Task)
        → All
            (λ task. IsDone task.delivery)
            (front ++ (record { delivery = killed; closes = closes } ∷ back))
        → ⊥
    bad [] (p, h) = p
    bad (t ∷ front) (p, h) = bad front h
Turn-crashed (tear_down _ _ _ _) h = refl
Turn-crashed (receive _ _ _ _ _ _) h = refl

Schedule-crashed :
    {tasks : List Task} {k : ℕ} {s : Transfers}
    → All (λ task. IsDone task.delivery) tasks
    → Schedule tasks k s
    → s.crashed ≡ false
Schedule-crashed h begin = refl
Schedule-crashed h (next r st) = Turn-crashed st (Schedule-All (λ task. IsDone task.delivery) h r)

empty-perm : {A : Type 0} (xs : List A) → Permᴰ xs [] → xs ≡ []
empty-perm [] p = refl
empty-perm (x ∷ xs) p = absurd (omega (arith, length-perm p))

module _ {G : Type 0} (read_random : G → ℕ → Bytes × G) (gen : ℕ → G)
    (connect : Bytes → Result Client) (s : SshTransfer) (parts : List ℕ)
    (some_size : 0 < s.send_size) (room : s.send_size + mb < 2 ^ 64)
    (split : compute_sender_sizes 2 s.send_size mb ≡ some parts) where
  -- `Simulate` over servers that answer its clients as the protocol wants: however the goroutines are
  -- scheduled, the program does not crash and there are at most six steps; some step is possible until
  -- the loop over the channel has all responses, and then `Simulate` reports a success.
  pub simulate_succeeds :
      {k : ℕ} {p : Transfers}
      → ServesAll read_random gen connect 0 parts
      → Schedule (goroutines read_random gen connect 0 parts) k p
      → (k ≤ 6)
        × (p.crashed ≡ false)
        × (((length p.got ≡ length parts) × (summary p ≡ success))
            ⊎ ((q : Transfers) × Turn (length parts) p q))
  simulate_succeeds {k} {p} served r =
      let (whole, two, some_parts) =
        compute_sender_sizes_parts 2 s.send_size mb (omega arith) (omega arith) room parts split in
      let small = part-le-sum parts u64 (omega (arith, whole)) in
      let done_all = goroutines-IsDone read_random gen connect 0 parts small served in
      let alive = Schedule-crashed done_all r in
      let (few, rest) = simulate_ends read_random gen connect s parts some_size room split r in
      (
        few,
        alive,
        elim rest [
          | inl dead ↦ absurd (cc (alive, dead))
          | inr (inr step) ↦ inr step
          | inr (inl full) ↦
              let (rs, each, came) =
                simulate_received read_random gen connect s parts some_size room split r alive
                  full in
              let nothing = empty-perm (errors p.got) (
                rw (errors-Delivers read_random gen connect 0 parts rs small served each) at
                  (errors-perm came)) in
              inl (full, collect-arrived p.got rs came ∙ rw nothing refl)
        ],
      )
