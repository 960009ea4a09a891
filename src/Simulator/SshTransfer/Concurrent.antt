-- ===== src/Simulator/SshTransfer/Concurrent.antt =====
-- `Simulate` with its goroutines, from the send size to what it reports.
use mathlib.Core.List.{Permᴰ}
use mathlib.Core.List.Permᴰ.{nil, cons, swap, trans}
use flightsim.Prelude.{
  ℕ, suc, ◌+◌, ◌^◌, ◌<◌, ◌≤◌, ◌≡◌, ◌≢◌, ◌⊎◌, refl, sym, ap, ◌∙◌, true, false, List, [], ◌∷◌, some,
  length, All, arith,
}
use flightsim.Prelude.Bytes.{Bytes}
use flightsim.Utils.Conn.{compute_sender_sizes}
use flightsim.Utils.Conn.Sizes.{sum, compute_sender_sizes_parts}
use flightsim.Ssh.Result.{Result, ok, err, panic}
use flightsim.Ssh.Client.{Client}
use flightsim.Ssh.Transfer.{u64, WriteResponse, Outcome, done, crashed, out_of_fuel, write_random}
use flightsim.Ssh.Transfer.Loop.{Succeeds}
use flightsim.Ssh.Transfer.Complete.{write_random-Succeeds}
use flightsim.Simulator.SshTransfer.{
  SshTransfer, mb, Delivery, delivered, killed, unfinished, written, simulate_client, worker,
}
use flightsim.Simulator.SshTransfer.Schedule.{
  Task, goroutine, goroutines, Transfers, Turn, Schedule, summary,
}
use flightsim.Simulator.SshTransfer.Steps.{IsRunning}
use flightsim.Simulator.SshTransfer.Interleaved.{
  response_of, sent_by, Schedule-ends, Schedule-received,
}
use flightsim.Simulator.SshTransfer.Collect.{errors, errors-perm}
use flightsim.Simulator.SshTransfer.Outcomes.{SumsUpTo, collect-arrived}

written_running :
    (P : ℕ → Bytes → Bytes → Type 0) (torn : ℕ) (o : Outcome)
    → Succeeds P o
    → (written torn o).delivery ≢ unfinished
written_running P torn (done r c) p = cc
written_running P torn crashed p = cc
written_running P torn out_of_fuel p = absurd p

pub part-le-sum : (parts : List ℕ) (n : ℕ) → sum parts < n → All (λ size. size < n) parts
unfolding sum
part-le-sum [] n h = tt
part-le-sum (x ∷ parts) n h = (omega arith, part-le-sum parts n (omega arith))

length-response_of :
    (d : Delivery) (rest : List WriteResponse) → length (response_of d rest) ≤ suc (length rest)
length-response_of (delivered r) rest = omega arith
length-response_of killed rest = omega arith
length-response_of unfinished rest = omega arith

length-sent_by : (ts : List Task) → length (sent_by ts) ≤ length ts
unfolding sent_by
length-sent_by [] = omega arith
length-sent_by (t ∷ ts) =
    omega (arith, length-response_of t.delivery (sent_by ts), length-sent_by ts)

pub length-perm : {A : Type 0} {xs ys : List A} → Permᴰ xs ys → length xs ≡ length ys
length-perm nil = refl
length-perm (cons e p) = ap suc (length-perm p)
length-perm (swap e f) = refl
length-perm (trans p q) = length-perm p ∙ length-perm q

module _ {G : Type 0} (read_random : G → ℕ → Bytes × G) (gen : ℕ → G)
    (connect : Bytes → Result Client) where
  simulate_client_running :
      (gen' : G) (name handle : Bytes) (size : ℕ) (r : Result Client) (torn : ℕ)
      → size < u64
      → (simulate_client read_random gen' name handle size r torn).delivery ≢ unfinished
  unfolding simulate_client
  simulate_client_running gen' name handle size (ok c) torn small =
      written_running _ torn (write_random read_random handle size gen' c)
        (write_random-Succeeds read_random handle size gen' c small)
  simulate_client_running gen' name handle size (err e) torn small = cc
  simulate_client_running gen' name handle size panic torn small = cc

  worker-IsRunning :
      (i size : ℕ) → size < u64 → IsRunning (goroutine read_random gen connect i size)
  unfolding worker
  worker-IsRunning i size small = simulate_client_running (gen i) _ _ size _ _ small

  goroutines-IsRunning :
      (i : ℕ) (parts : List ℕ)
      → All (λ size. size < u64) parts
      → All IsRunning (goroutines read_random gen connect i parts)
  unfolding goroutines
  goroutines-IsRunning i [] h = tt
  goroutines-IsRunning i (size ∷ parts) (small, h) =
      (worker-IsRunning i size small, goroutines-IsRunning (suc i) parts h)

  length-goroutines :
      (i : ℕ) (parts : List ℕ) → length (goroutines read_random gen connect i parts) ≡ length parts
  unfolding goroutines
  length-goroutines i [] = refl
  length-goroutines i (size ∷ parts) = ap suc (length-goroutines (suc i) parts)

  -- The responses of the clients from number `i` on, one for each part: what their goroutines deliver.
  abbrev pub Delivers : ℕ → List ℕ → List WriteResponse → Type 0
  Delivers i [] [] = Unit {0}
  Delivers i [] (r ∷ rs) = ⊥
  Delivers i (size ∷ parts) [] = ⊥
  Delivers i (size ∷ parts) (r ∷ rs) =
      ((worker read_random (gen i) connect i size).delivery ≡ delivered r)
      × Delivers (suc i) parts rs

  delivered_first :
      (d : Delivery) (rest : List WriteResponse) (n : ℕ)
      → length rest ≤ n
      → length (response_of d rest) ≡ suc n
      → (r : WriteResponse) × (d ≡ delivered r)
        × (response_of d rest ≡ r ∷ rest)
        × (length rest ≡ n)
  delivered_first (delivered r) rest n le h = (r, refl, refl, omega (arith, h))
  delivered_first killed rest n le h = absurd (omega (arith, h))
  delivered_first unfinished rest n le h = absurd (omega (arith, h))

  -- If as many respond as there are goroutines, then each does.
  sent_by-Delivers :
      (i : ℕ) (parts : List ℕ)
      → length (sent_by (goroutines read_random gen connect i parts)) ≡ length parts
      → Delivers i parts (sent_by (goroutines read_random gen connect i parts))
  unfolding sent_by goroutines
  sent_by-Delivers i [] h = tt
  sent_by-Delivers i (size ∷ parts) h =
      let later = goroutines read_random gen connect (suc i) parts in
      let few : length (sent_by later) ≤ length parts =
        omega (arith, length-sent_by later, length-goroutines (suc i) parts) in
      let (r, first, all, rest) =
        delivered_first (worker read_random (gen i) connect i size).delivery (sent_by later)
          (length parts) few h in
      rw all (first, sent_by-Delivers (suc i) parts rest)

  module _ (s : SshTransfer) (parts : List ℕ) (some_size : 0 < s.send_size)
      (room : s.send_size + mb < 2 ^ 64)
      (split : compute_sender_sizes 2 s.send_size mb ≡ some parts) where
    -- `Simulate` starts one goroutine for each part, at most two. However these are scheduled, there
    -- are no more than six steps, and as long as the program has not crashed by a panic and the loop
    -- over the channel has not all responses, some step is possible: no goroutine blocks for ever.
    pub simulate_ends :
        {k : ℕ} {p : Transfers}
        → Schedule (goroutines read_random gen connect 0 parts) k p
        → (k ≤ 6)
          × ((p.crashed ≡ true)
              ⊎ ((length p.got ≡ length parts) ⊎ ((q : Transfers) × Turn (length parts) p q)))
    simulate_ends r =
        let (whole, two, full) =
          compute_sender_sizes_parts 2 s.send_size mb (omega arith) (omega arith) room parts
            split in
        let small = part-le-sum parts u64 (omega (arith, whole)) in
        let (few, rest) =
          rw (length-goroutines 0 parts) at
            (Schedule-ends (goroutines-IsRunning 0 parts small) r) in
        (omega (arith, few, two), rest)

    -- What the loop has received in the end are the responses of all clients, in some order.
    pub simulate_received :
        {k : ℕ} {p : Transfers}
        → Schedule (goroutines read_random gen connect 0 parts) k p
        → p.crashed ≡ false
        → length p.got ≡ length parts
        → (rs : List WriteResponse) × Delivers 0 parts rs × Permᴰ p.got rs
    simulate_received {p = p} r alive full =
        let tasks = goroutines read_random gen connect 0 parts in
        let arrived = Schedule-received r alive (full ∙ sym (length-goroutines 0 parts)) in
        (sent_by tasks, sent_by-Delivers 0 parts (sym (length-perm arrived) ∙ full), arrived)

    -- However the goroutines are scheduled, when the loop over the channel has all responses and no
    -- panic has crashed the program, each goroutine has delivered a response, and what `Simulate`
    -- returns sums these up, one for each of the at most two parts of the send size: it succeeds if
    -- none has an error, and else it reports the sum of their bytes, modulo 2 ^ 64, and all of their
    -- errors in some order.
    pub simulate_sums :
        {k : ℕ} {p : Transfers}
        → Schedule (goroutines read_random gen connect 0 parts) k p
        → p.crashed ≡ false
        → length p.got ≡ length parts
        → (rs : List WriteResponse) × Delivers 0 parts rs
          × SumsUpTo rs parts s.send_size (summary p)
    simulate_sums {p = p} r alive full =
        let (whole, two, some_parts) =
          compute_sender_sizes_parts 2 s.send_size mb (omega arith) (omega arith) room parts
            split in
        let (rs, each, came) = simulate_received r alive full in
        (rs, each, (errors p.got, whole, two, errors-perm came, collect-arrived p.got rs came))
