-- ===== src/Simulator/SshTransfer/Schedule.antt =====
-- The goroutines of `Simulate` (v2/simulator/ssh-transfer.go) with the loop over the channel, as steps
-- in any order. A goroutine's own work is one value; what it shares is the channel, whose buffer has
-- room for `capacity` responses.
use flightsim.Prelude.{ℕ, suc, ◌<◌, Bool, true, false, List, [], ◌∷◌, ◌++◌, if◌then◌else◌, length}
use flightsim.Prelude.Bytes.{Bytes, codes, itoa}
use flightsim.Ssh.Result.{Result, ok, err, panic}
use flightsim.Ssh.Client.{Client}
use flightsim.Ssh.Transfer.{WriteResponse}
use flightsim.Simulator.SshTransfer.{
  new_client, Delivery, delivered, killed, worker, Simulated, collect, summarise,
}

-- A goroutine that has not reached the channel: what it will do there, and whether `Teardown` follows.
pub record Task : Type 0 where
  pub delivery : Delivery
  pub closes : Bool

abbrev pub is_connected : Result Client → Bool
is_connected (ok c) = true
is_connected (err e) = false
is_connected panic = false

module _ {G : Type 0} (read_random : G → ℕ → Bytes × G) (gen : ℕ → G)
    (connect : Bytes → Result Client) where
  -- `go s.simulate(…)` for client `i`
  abbrev pub goroutine : ℕ → ℕ → Task
  goroutine i size = record {
    delivery = (worker read_random (gen i) connect i size).delivery;
    closes = is_connected (new_client (connect (codes "alphasoc-" ++ itoa i))).client;
  }

  -- The loop that starts the goroutines, from client `i` on.
  unfoldable pub goroutines : ℕ → List ℕ → List Task
  goroutines i [] = []
  goroutines i (size ∷ sizes) = goroutine i size ∷ goroutines (suc i) sizes

-- `closing` is the number of goroutines that have still to tear their connection down; `got` holds
-- what the loop of `Simulate` has received. A panic ends the program.
pub record Transfers : Type 0 where
  pub waiting : List Task
  pub closing : ℕ
  pub channel : List WriteResponse
  pub got : List WriteResponse
  pub crashed : Bool

abbrev pub started_with : List Task → Transfers
started_with tasks = record {
  waiting = tasks;
  closing = 0;
  channel = [];
  got = [];
  crashed = false;
}

pub data Turn (capacity : ℕ) : Transfers → Transfers → Type 0 where
  send :
      (front back : List Task) (r : WriteResponse) (closes : Bool) (closing : ℕ)
      (channel got : List WriteResponse)
      → length channel < capacity
      → Turn capacity
          (record {
            waiting = front ++ (record { delivery = delivered r; closes = closes } ∷ back);
            closing = closing;
            channel = channel;
            got = got;
            crashed = false;
          })
          (record {
            waiting = front ++ back;
            closing = if closes then suc closing else closing;
            channel = channel ++ (r ∷ []);
            got = got;
            crashed = false;
          })
  crash :
      (front back : List Task) (closes : Bool) (closing : ℕ) (channel got : List WriteResponse)
      → Turn capacity
          (record {
            waiting = front ++ (record { delivery = killed; closes = closes } ∷ back);
            closing = closing;
            channel = channel;
            got = got;
            crashed = false;
          })
          (record { waiting = []; closing = 0; channel = []; got = got; crashed = true })
  tear_down :
      (waiting : List Task) (closing : ℕ) (channel got : List WriteResponse)
      → Turn capacity
          (record {
            waiting = waiting;
            closing = suc closing;
            channel = channel;
            got = got;
            crashed = false;
          })
          (record {
            waiting = waiting;
            closing = closing;
            channel = channel;
            got = got;
            crashed = false;
          })
  receive :
      (waiting : List Task) (closing : ℕ) (r : WriteResponse) (channel got : List WriteResponse)
      → length got < capacity
      → Turn capacity
          (record {
            waiting = waiting;
            closing = closing;
            channel = r ∷ channel;
            got = got;
            crashed = false;
          })
          (record {
            waiting = waiting;
            closing = closing;
            channel = channel;
            got = got ++ (r ∷ []);
            crashed = false;
          })

-- The states that a schedule of so many steps leads to; the channel has room for every client.
pub data Schedule (tasks : List Task) : ℕ → Transfers → Type 0 where
  begin : Schedule tasks 0 (started_with tasks)
  next :
      {k : ℕ} {s t : Transfers}
      → Schedule tasks k s
      → Turn (length tasks) s t
      → Schedule tasks (suc k) t

-- What `Simulate` returns behind its loop.
abbrev pub summary : Transfers → Simulated
summary s = summarise (collect s.got [] 0)
