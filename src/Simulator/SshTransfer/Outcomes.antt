-- ===== src/Simulator/SshTransfer/Outcomes.antt =====
-- `Simulate` as a whole: the transfer is split, each part is sent, and the responses are summed up.
use mathlib.Core.List.{Permᴰ}
use flightsim.Prelude.{
  ℕ, ◌+◌, ◌*◌, ◌%◌, ◌^◌, ◌<◌, ◌≤◌, ◌≡◌, ap, ◌∙◌, false, List, [], none, length, ◌==◌, arith,
}
use flightsim.Prelude.Bytes.{Bytes}
use flightsim.Utils.Conn.{compute_senders}
use flightsim.Utils.Conn.Sizes.{sum, compute_sender_sizes_least, compute_sender_sizes_parts}
use flightsim.Ssh.Result.{Error}
use flightsim.Ssh.Transfer.{u64, WriteResponse}
use flightsim.Simulator.SshTransfer.{
  SshTransfer, mb, Simulated, collect, responses, summarise, simulate,
}
use flightsim.Simulator.SshTransfer.Collect.{errors, bytes, collect_lem, errors-perm, bytes-perm}

-- The result sums up the responses for a split of the whole into at most two parts: the bytes of all
-- of them, and their errors in some order.
abbrev pub SumsUpTo : List WriteResponse → List ℕ → ℕ → Simulated → Type 0
SumsUpTo rs parts size result =
    (errs : List (Bytes × Error)) × (sum parts ≡ size)
    × (length parts ≤ 2)
    × Permᴰ errs (errors rs)
    × (result ≡ summarise (errs, bytes rs % u64))

abbrev pub SumsUp : (ℕ → ℕ → WriteResponse) → ℕ → Simulated → Type 0
SumsUp respond size result =
    (parts : List ℕ) × SumsUpTo (responses respond 0 parts) parts size result

pub collect-arrived :
    (came rs : List WriteResponse)
    → Permᴰ came rs
    → summarise (collect came [] 0) ≡ summarise (errors came, bytes rs % u64)
collect-arrived came rs p =
    let total : (0 + bytes came) % u64 ≡ bytes rs % u64 = omega (arith, bytes-perm p) in
    ap summarise (collect_lem came [] 0 (omega arith) ∙ ap (λ (b : ℕ). (errors came, b)) total)

-- `Simulate` with a signer and a send size that is not 0 and leaves room for a megabyte below
-- 2 ^ 64 splits it into at most two parts that add up to it. Whatever the order in which the
-- responses for the parts come, it succeeds if none has an error, and else it reports the sum of
-- their bytes, modulo 2 ^ 64, and all of their errors.
pub simulate-SumsUp :
    (respond : ℕ → ℕ → WriteResponse) (arrive : List WriteResponse → List WriteResponse)
    (s : SshTransfer)
    → ((rs : List WriteResponse) → Permᴰ (arrive rs) rs)
    → 0 < s.send_size
    → s.send_size + mb < 2 ^ 64
    → SumsUp respond s.send_size (simulate none respond arrive s)
unfolding simulate
simulate-SumsUp respond arrive s perm some_size room =
    let (j, lo, found, few, before) =
      compute_sender_sizes_least 2 s.send_size mb (omega arith) (omega arith) room in
    let parts = compute_senders s.send_size ((j + 1) * mb) in
    let (whole, two, full) =
      compute_sender_sizes_parts 2 s.send_size mb (omega arith) (omega arith) room parts found in
    let rs = responses respond 0 parts in
    let nonzero : (s.send_size == 0) ≡ false = ground arith in
    (
      parts,
      (
        errors (arrive rs),
        whole,
        two,
        errors-perm (perm rs),
        rw (nonzero, found) (collect-arrived (arrive rs) rs (perm rs)),
      ),
    )
