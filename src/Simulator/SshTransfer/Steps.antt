-- ===== src/Simulator/SshTransfer/Steps.antt =====
-- Single steps of the goroutines of `Simulate` (v2/simulator/ssh-transfer.go): which are possible, and
-- what each leaves to do.
use flightsim.Prelude.{
  ℕ, ◌+◌, ◌*◌, ◌<◌, ◌≡◌, ◌≢◌, refl, Bool, true, false, List, [], ◌∷◌, ◌++◌, length, length-append,
  All, arith,
}
use flightsim.Ssh.Transfer.{WriteResponse}
use flightsim.Simulator.SshTransfer.{Delivery, delivered, killed, unfinished}
use flightsim.Simulator.SshTransfer.Schedule.{
  Task, Transfers, Turn, send, crash, tear_down, receive,
}

-- Every step starts from a program that is alive.
pub Turn-alive : {capacity : ℕ} {s t : Transfers} → Turn capacity s t → s.crashed ≡ false
Turn-alive (send _ _ _ _ _ _ _ _) = refl
Turn-alive (crash _ _ _ _ _ _) = refl
Turn-alive (tear_down _ _ _ _) = refl
Turn-alive (receive _ _ _ _ _ _) = refl

-- How much is left to do: three steps for a goroutine at most.
abbrev pub left : Transfers → ℕ
left s = 3 * length s.waiting + length s.channel + s.closing

pub Turn-left : {capacity : ℕ} {s t : Transfers} → Turn capacity s t → left t < left s
Turn-left (send front back r true closing channel got room) = omega (
  arith,
  length-append channel (r ∷ []),
  length-append front back,
  length-append front (record { delivery = delivered r; closes = true } ∷ back),
)
Turn-left (send front back r false closing channel got room) = omega (
  arith,
  length-append channel (r ∷ []),
  length-append front back,
  length-append front (record { delivery = delivered r; closes = false } ∷ back),
)
Turn-left (crash front back closes closing channel got) =
    omega (arith, length-append front (record { delivery = killed; closes = closes } ∷ back))
Turn-left (tear_down waiting closing channel got) = omega arith
Turn-left (receive waiting closing r channel got room) = omega arith

abbrev pub IsRunning : Task → Type 0
IsRunning t = t.delivery ≢ unfinished

pub All-removed :
    (P : Task → Type 0) (front back : List Task) (t : Task)
    → All P (front ++ (t ∷ back))
    → All P (front ++ back)
All-removed P [] back t (p, h) = h
All-removed P (x ∷ front) back t (p, h) = (p, All-removed P front back t h)

-- What holds of all goroutines that wait, holds of those that are left.
pub Turn-All :
    (P : Task → Type 0) {capacity : ℕ} {s t : Transfers}
    → Turn capacity s t
    → All P s.waiting
    → All P t.waiting
Turn-All P (send front back r closes _ _ _ _) h =
    All-removed P front back (record { delivery = delivered r; closes = closes }) h
Turn-All P (crash _ _ _ _ _ _) h = tt
Turn-All P (tear_down _ _ _ _) h = h
Turn-All P (receive _ _ _ _ _ _) h = h

-- A goroutine that waits can send into a channel with room, or it panics.
pub sent_next :
    (n : ℕ) (t : Task) (back : List Task) (closing : ℕ) (got : List WriteResponse)
    → 0 < n
    → IsRunning t
    → (u : Transfers) × Turn n
        (record { waiting = t ∷ back; closing = closing; channel = []; got = got; crashed = false })
        u
sent_next n t back closing got room run = by t.delivery run
  where
    by :
        (d : Delivery)
        → d ≢ unfinished
        → (u : Transfers) × Turn n
            (record {
              waiting = record { delivery = d; closes = t.closes } ∷ back;
              closing = closing;
              channel = [];
              got = got;
              crashed = false;
            })
            u
    by (delivered r) h = (_, send [] back r t.closes closing [] got room)
    by killed h = (_, crash [] back t.closes closing [] got)
    by unfinished h = absurd (h refl)

pub next_step :
    (n : ℕ) (waiting : List Task) (closing : ℕ) (channel got : List WriteResponse) (crashed : Bool)
    → crashed ≡ false
    → All IsRunning waiting
    → length waiting + length channel + length got ≡ n
    → length got < n
    → (u : Transfers) × Turn n
        (record {
          waiting = waiting;
          closing = closing;
          channel = channel;
          got = got;
          crashed = crashed;
        })
        u
next_step n waiting closing channel got true h run count less = absurd (cc h)
next_step n waiting closing (r ∷ channel) got false h run count less =
    (_, receive waiting closing r channel got less)
next_step n [] closing [] got false h run count less = absurd (omega arith)
next_step n (t ∷ waiting) closing [] got false h (run, later) count less =
    sent_next n t waiting closing got (omega arith) run
