-- ===== src/Simulator/SshTransfer/Collect.antt =====
-- The end of a transfer: what `Simulate` makes of the clients' responses, in whatever order they
-- come, and the teardown of the connections.
use flightsim.Prelude.{
  ℕ, ◌+◌, ◌%◌, ◌<◌, ◌≡◌, inl, inr, refl, sym, ap, ◌∙◌, List, [], ◌∷◌, ◌++◌, Option, none, some,
  ◌==◌, arith, append_assoc, append-nil, Bool-cases,
}
use mathlib.Core.List.{Permᴰ}
use mathlib.Core.List.Permᴰ.{nil, cons, swap, trans}
use mathlib.Core.List.Permᴰ
use flightsim.Prelude.Bytes.{Bytes, codes, itoa}
use flightsim.Ssh.Fxp.Packets.{Version}
use flightsim.Ssh.Result.{Error, Result, ok, err, panic}
use flightsim.Ssh.Client.{Client, send_init, client_ver}
use flightsim.Ssh.Transfer.{u64, WriteResponse, Outcome, done, crashed, out_of_fuel, write_random}
use flightsim.Simulator.SshTransfer.{
  Connection, started, written, new_client, delivered, Worker, worker, simulate_client, collect,
}

-- The errors among the responses, with the names of their clients, and the sum of the bytes sent.
abbrev pub add_error : Bytes → Option Error → List (Bytes × Error) → List (Bytes × Error)
add_error name none es = es
add_error name (some e) es = (name, e) ∷ es

unfoldable pub errors : List WriteResponse → List (Bytes × Error)
errors [] = []
errors (r ∷ rs) = add_error r.client_name r.err (errors rs)

unfoldable pub bytes : List WriteResponse → ℕ
bytes [] = 0
bytes (r ∷ rs) = r.bytes_sent + bytes rs

collect_err :
    (o : Option Error) (name : Bytes) (errs es : List (Bytes × Error))
    → (elim o [ some e ↦ errs ++ ((name, e) ∷ []) | none ↦ errs ]) ++ es
      ≡ errs ++ add_error name o es
collect_err none name errs es = refl
collect_err (some e) name errs es = append_assoc errs ((name, e) ∷ []) es

pub collect_lem :
    (rs : List WriteResponse) (errs : List (Bytes × Error)) (total : ℕ)
    → total < u64
    → collect rs errs total ≡ (errs ++ errors rs, (total + bytes rs) % u64)
unfolding collect errors bytes
collect_lem [] errs total h =
    let same : total ≡ (total + 0) % u64 = omega arith in λ i. (sym (append-nil errs) i, same i)
collect_lem (r ∷ rs) errs total h =
    let same : ((total + r.bytes_sent) % u64 + bytes rs) % u64
        ≡ (total + (r.bytes_sent + bytes rs)) % u64 =
      omega arith in
    collect_lem rs _ ((total + r.bytes_sent) % u64) (omega arith)
    ∙ (λ i. (collect_err r.err r.client_name errs (errors rs) i, same i))

add_error-perm :
    (name : Bytes) (o : Option Error) {es fs : List (Bytes × Error)}
    → Permᴰ es fs
    → Permᴰ (add_error name o es) (add_error name o fs)
add_error-perm name none p = p
add_error-perm name (some e) p = cons refl p

add_error_swap :
    (m n : Bytes) (o q : Option Error) (es : List (Bytes × Error))
    → Permᴰ (add_error m o (add_error n q es)) (add_error n q (add_error m o es))
add_error_swap m n none q es = Permᴰ.refl _
add_error_swap m n (some e) none es = Permᴰ.refl _
add_error_swap m n (some e) (some x) es = swap refl refl

pub errors-perm : {rs ss : List WriteResponse} → Permᴰ rs ss → Permᴰ (errors rs) (errors ss)
unfolding errors
errors-perm nil = nil
errors-perm (cons {a = r} {b = s} e p) = rw e (add_error-perm s.client_name s.err (errors-perm p))
errors-perm (swap {a = a} {b = b} {a' = c} {b' = d} {l = l} e f) =
    rw (e, f) (add_error_swap d.client_name c.client_name d.err c.err (errors l))
errors-perm (trans p q) = trans (errors-perm p) (errors-perm q)

pub bytes-perm : {rs ss : List WriteResponse} → Permᴰ rs ss → bytes rs ≡ bytes ss
unfolding bytes
bytes-perm nil = refl
bytes-perm (cons {a = r} {b = s} e p) = rw e (omega (arith, bytes-perm p))
bytes-perm (swap {a = a} {b = b} {a' = c} {b' = d} e f) = rw (e, f) (omega arith)
bytes-perm (trans p q) = bytes-perm p ∙ bytes-perm q

-- Whatever the order in which the responses come over the channel, the loop of `Simulate` counts the
-- same bytes, modulo 2 ^ 64, and collects the same errors up to their order.
pub collect-perm :
    (rs ss : List WriteResponse)
    → Permᴰ rs ss
    → ((collect rs [] 0).1 ≡ (collect ss [] 0).1)
      × ((collect rs [] 0).1 ≡ bytes ss % u64)
      × Permᴰ (collect rs [] 0).0 (collect ss [] 0).0
collect-perm rs ss p =
    rw (collect_lem rs [] 0 (omega arith), collect_lem ss [] 0 (omega arith))
      (ap (λ (b : ℕ). (0 + b) % u64) (bytes-perm p), omega (arith, bytes-perm p), errors-perm p)

-- What a connection that was made, or not, costs in teardowns.
abbrev pub due_teardowns : Result Client → ℕ
due_teardowns (ok c) = 1
due_teardowns (err e) = 0
due_teardowns panic = 0

module _ {G : Type 0} (read_random : G → ℕ → Bytes × G) (gen : G) (name handle : Bytes) (size : ℕ)
    (resp : WriteResponse) where
  written_teardowns :
      (o : Outcome) → (written 0 o).delivery ≡ delivered resp → (written 0 o).teardowns ≡ 1
  written_teardowns (done r c) h = refl
  written_teardowns crashed h = cc
  written_teardowns out_of_fuel h = cc

  abbrev run_client : Connection → Worker
  run_client c = simulate_client read_random gen name handle size c.client c.teardowns

  checked_teardowns :
      (v : Version) (c : Client)
      → (run_client (started (ok v, c))).delivery ≡ delivered resp
      → (run_client (started (ok v, c))).teardowns ≡ 1
  unfolding simulate_client
  checked_teardowns v c h = elim (Bool-cases (v.version == client_ver)) [
    | inl same ↦
        rw same (written_teardowns (write_random read_random handle size gen c) (rw same at h))
    | inr other ↦ rw other refl
  ]

  started_teardowns :
      (t : Result Version × Client)
      → (run_client (started t)).delivery ≡ delivered resp
      → (run_client (started t)).teardowns ≡ 1
  started_teardowns (err e, c) h = unfold simulate_client in refl
  started_teardowns (panic, c) h = unfold simulate_client in cc
  started_teardowns (ok v, c) h = checked_teardowns v c h

  run_teardowns :
      (r : Result Client)
      → (run_client (new_client r)).delivery ≡ delivered resp
      → (run_client (new_client r)).teardowns ≡ due_teardowns r
  unfolding new_client simulate_client
  run_teardowns (err e) h = refl
  run_teardowns panic h = cc
  run_teardowns (ok c) h = started_teardowns (send_init c) h

-- A goroutine of `Simulate` that delivers a response, of success or failure, tears its connection
-- down exactly once in the end if `NewClient` made one, and never if `NewClient` failed.
pub worker_teardowns :
    {G : Type 0} (read_random : G → ℕ → Bytes × G) (gen : G) (connect : Bytes → Result Client)
    (i size : ℕ) (resp : WriteResponse)
    → (worker read_random gen connect i size).delivery ≡ delivered resp
    → (worker read_random gen connect i size).teardowns
      ≡ due_teardowns (connect (codes "alphasoc-" ++ itoa i))
unfolding worker
worker_teardowns read_random gen connect i size resp h =
    run_teardowns read_random gen (codes "alphasoc-" ++ itoa i)
      (codes "flightsim-ssh-transfer-" ++ itoa i) size resp (connect (codes "alphasoc-" ++ itoa i))
      h
