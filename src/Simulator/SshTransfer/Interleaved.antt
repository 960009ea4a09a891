-- ===== src/Simulator/SshTransfer/Interleaved.antt =====
-- `Simulate` under every schedule of its goroutines: it is never stuck, it ends, and the schedule
-- makes no difference to what it reports, up to the order of the errors.
use mathlib.Core.List.{Permᴰ}
use mathlib.Core.List.Permᴰ.{trans}
use mathlib.Core.List.Permᴰ
use flightsim.Prelude.{
  ℕ, ◌+◌, ◌*◌, ◌≤◌, ◌≡◌, ◌⊎◌, inl, inr, refl, ap, ◌∙◌, true, false, List, [], ◌∷◌, ◌++◌, length,
  length-append, All, append_assoc, append-nil, Bool-cases, ltb, ltb→lt, ltb_false→le, arith,
}
use flightsim.Ssh.Transfer.{WriteResponse}
use flightsim.Simulator.SshTransfer.{Delivery, delivered, killed, unfinished}
use flightsim.Simulator.SshTransfer.Steps.{
  Turn-alive, left, Turn-left, IsRunning, Turn-All, next_step,
}
use flightsim.Simulator.SshTransfer.Schedule.{
  Task, Transfers, started_with, Turn, send, crash, tear_down, receive, Schedule, begin, next,
}

-- The responses of the goroutines that deliver one.
abbrev pub response_of : Delivery → List WriteResponse → List WriteResponse
response_of (delivered r) rest = r ∷ rest
response_of killed rest = rest
response_of unfinished rest = rest

unfoldable pub sent_by : List Task → List WriteResponse
sent_by [] = []
sent_by (t ∷ ts) = response_of t.delivery (sent_by ts)

response_of-append :
    (d : Delivery) (xs ys : List WriteResponse) → response_of d (xs ++ ys) ≡ response_of d xs ++ ys
response_of-append (delivered r) xs ys = refl
response_of-append killed xs ys = refl
response_of-append unfinished xs ys = refl

sent_by-append : (a b : List Task) → sent_by (a ++ b) ≡ sent_by a ++ sent_by b
unfolding sent_by
sent_by-append [] b = refl
sent_by-append (t ∷ a) b =
    ap (response_of t.delivery) (sent_by-append a b)
    ∙ response_of-append t.delivery (sent_by a) (sent_by b)

-- All that the goroutines deliver is still to be sent, in the channel, or received; no goroutine is
-- lost.
pub record Inv (tasks : List Task) (s : Transfers) : Type 0 where
  pub all : Permᴰ (sent_by s.waiting ++ (s.channel ++ s.got)) (sent_by tasks)
  pub count : length s.waiting + length s.channel + length s.got ≡ length tasks

module _ {A : Type 0} where
  -- An element is taken out of the first of three lists and put behind the second.
  perm_sent :
      (a b c d : List A) (r : A)
      → Permᴰ ((a ++ b) ++ ((c ++ (r ∷ [])) ++ d)) ((a ++ (r ∷ b)) ++ (c ++ d))
  perm_sent a b c d r =
      let moved : Permᴰ (b ++ (c ++ (r ∷ d))) (r ∷ (b ++ (c ++ d))) =
        rw (append_assoc b c (r ∷ d), append_assoc b c d) at (Permᴰ.middle r (b ++ c) d) in
      rw
        (
          append_assoc c (r ∷ []) d,
          append_assoc a b (c ++ (r ∷ d)),
          append_assoc a (r ∷ b) (c ++ d),
        )
        (Permᴰ.append_left a moved)

  -- The head of the first of two lists is put behind the second.
  perm_received : (c d : List A) (r : A) → Permᴰ (c ++ (d ++ (r ∷ []))) ((r ∷ c) ++ d)
  perm_received c d r = rw (append_assoc c d (r ∷ [])) at (Permᴰ.append_comm (c ++ d) (r ∷ []))

module _ {tasks : List Task} where
  Inv-start : Inv tasks (started_with tasks)
  Inv-start = record { all = rw (append-nil (sent_by tasks)) (Permᴰ.refl _); count = omega arith }

  -- A crash loses what was under way, so the program is alive behind the step.
  Turn-Inv :
      {capacity : ℕ} {s t : Transfers}
      → Turn capacity s t
      → t.crashed ≡ false
      → Inv tasks s
      → Inv tasks t
  unfolding sent_by
  Turn-Inv (send front back r closes closing channel got room) alive inv = record {
    all =
        trans
          (rw (sent_by-append front back) (perm_sent (sent_by front) (sent_by back) channel got r))
          (rw (sent_by-append front (record { delivery = delivered r; closes = closes } ∷ back)) at
            inv.all);
    count = omega (
      arith,
      inv.count,
      length-append front back,
      length-append channel (r ∷ []),
      length-append front (record { delivery = delivered r; closes = closes } ∷ back),
    );
  }
  Turn-Inv (crash front back closes closing channel got) alive inv = absurd (cc alive)
  Turn-Inv (tear_down waiting closing channel got) alive inv = record {
    all = inv.all;
    count = inv.count;
  }
  Turn-Inv (receive waiting closing r channel got room) alive inv = record {
    all = trans (Permᴰ.append_left (sent_by waiting) (perm_received channel got r)) inv.all;
    count = omega (arith, inv.count, length-append got (r ∷ []));
  }

  Schedule-Inv : {k : ℕ} {s : Transfers} → Schedule tasks k s → s.crashed ≡ false → Inv tasks s
  Schedule-Inv begin alive = Inv-start
  Schedule-Inv (next r st) alive = Turn-Inv st alive (Schedule-Inv r (Turn-alive st))

  pub Schedule-All :
      (P : Task → Type 0) {k : ℕ} {s : Transfers}
      → All P tasks
      → Schedule tasks k s
      → All P s.waiting
  Schedule-All P h begin = h
  Schedule-All P h (next r st) = Turn-All P st (Schedule-All P h r)

  Schedule-left : {k : ℕ} {s : Transfers} → Schedule tasks k s → k + left s ≤ 3 * length tasks
  Schedule-left begin = omega arith
  Schedule-left (next r st) = omega (arith, Schedule-left r, Turn-left st)

  -- No schedule takes more than three steps for a goroutine. Behind each schedule the program has
  -- crashed, or the loop of `Simulate` has all responses, or some step is possible.
  pub Schedule-ends :
      {k : ℕ} {s : Transfers}
      → All IsRunning tasks
      → Schedule tasks k s
      → (k ≤ 3 * length tasks)
        × ((s.crashed ≡ true)
            ⊎ ((length s.got ≡ length tasks) ⊎ ((t : Transfers) × Turn (length tasks) s t)))
  Schedule-ends {s = s} run r = (
    omega (arith, Schedule-left r),
    elim (Bool-cases s.crashed) [
      | inl crashed ↦ inl crashed
      | inr alive ↦
          let inv = Schedule-Inv r alive in
          elim (Bool-cases (ltb (length s.got) (length tasks))) [
            | inl less ↦ inr (
                inr (
                  next_step (length tasks) s.waiting s.closing s.channel s.got s.crashed alive
                    (Schedule-All IsRunning run r) inv.count
                    (ltb→lt (length s.got) (length tasks) less)))
            | inr full ↦
                inr
                  (inl (omega (arith, inv.count, ltb_false→le (length s.got) (length tasks) full)))
          ]
    ],
  )

  -- When the loop has all responses, they are those of all goroutines, in some order.
  pub Schedule-received :
      {k : ℕ} {s : Transfers}
      → Schedule tasks k s
      → s.crashed ≡ false
      → length s.got ≡ length tasks
      → Permᴰ s.got (sent_by tasks)
  unfolding sent_by
  Schedule-received {s = s} r alive full =
      let inv = Schedule-Inv r alive in
      emptied s.waiting s.channel s.got (omega (arith, inv.count)) (omega (arith, inv.count))
        inv.all
    where
      emptied :
          (waiting : List Task) (channel got : List WriteResponse)
          → length waiting ≡ 0
          → length channel ≡ 0
          → Permᴰ (sent_by waiting ++ (channel ++ got)) (sent_by tasks)
          → Permᴰ got (sent_by tasks)
      emptied [] [] got h h' p = p
      emptied (t ∷ ts) channel got h h' p = absurd (omega arith)
      emptied [] (r ∷ rs) got h h' p = absurd (omega arith)
