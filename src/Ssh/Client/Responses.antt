-- ===== src/Ssh/Client/Responses.antt =====
-- `ReadResp`: its contract on any stream, when it panics, and what it makes of a well-formed reply.
use flightsim.Prelude.{
  ℕ, ◌-◌, ◌≤◌, ◌≡◌, ◌≢◌, ◌↔◌, ◌⊎◌, inl, inr, refl, sym, ap, ◌∙◌, [], ◌∷◌, ◌++◌, Option, none, some,
  length, take, drop, arith, All, All-take, replicate, Bool-cases, Option-cases, ltb, ltb_false→le,
  length-take, take-append-drop,
}
use mathlib.Core.Path.{subst}
use flightsim.Prelude.Bytes.{Bytes, IsByte}
use flightsim.Utils.Marshal.{unmarshal_uint32, marshal_uint32}
use flightsim.Utils.Marshal.RoundTrip.{marshal_uint32-unmarshal_uint32}
use flightsim.Ssh.Fxp.Packets.{
  Version, Handle, Status, Packet, version_pkt, handle_pkt, type_code_version, type_code_handle,
  get_code, unmarshal_status,
}
use flightsim.Ssh.Result.{IoError, eof, unexpected_eof, io_failure, Error, Result, ok, err, panic}
use flightsim.Ssh.Packet.{
  Reader, full_error, read_packet, version_resp, open_resp, status_resp, parsed, read_full,
  read_failure, body_result,
}
use flightsim.Ssh.Packet.Frames.{read_full-append}
use flightsim.Ssh.Client.{status_case, typed_resp, resp_of_packet, read_resp, map_result}

pub Result-cases :
    {A : Type 0} (r : Result A) → ((a : A) × (r ≡ ok a)) ⊎ ((e : Error) × (r ≡ err e)) ⊎ (r ≡ panic)
Result-cases (ok a) = inl (a, refl)
Result-cases (err e) = inr (inl (e, refl))
Result-cases panic = inr (inr refl)

-- What `p` is, by its code: the code is that of `p`.
status_case-code :
    (expected : ℕ) (s : Result Status) {p : Packet}
    → status_case expected s ≡ ok p
    → get_code p ≡ expected
unfolding status_case get_code
status_case-code expected (ok s) h = ground arith
status_case-code expected (err e) h = cc
status_case-code expected panic h = cc

version-code :
    (r : Result Version) {p : Packet}
    → map_result version_pkt r ≡ ok p
    → get_code p ≡ type_code_version
unfolding get_code
version-code (ok v) h = ground arith
version-code (err e) h = cc
version-code panic h = cc

handle-code :
    (r : Result Handle) {p : Packet}
    → map_result handle_pkt r ≡ ok p
    → get_code p ≡ type_code_handle
unfolding get_code
handle-code (ok v) h = ground arith
handle-code (err e) h = cc
handle-code panic h = cc

typed_resp-code :
    (expected t : ℕ) (b : Bytes) {p : Packet}
    → typed_resp expected t b ≡ ok p
    → get_code p ≡ expected
unfolding typed_resp
typed_resp-code expected t b {p} h = ground (
  arith,
  status_case-code expected (status_resp b) {p = p},
  version-code (version_resp b) {p = p},
  handle-code (open_resp b) {p = p},
)

resp_of_packet-code :
    (expected : ℕ) (b : Bytes) (e : Option Error) (r : Reader) {p : Packet}
    → (resp_of_packet expected (b, e, r)).0 ≡ ok p
    → get_code p ≡ expected
unfolding resp_of_packet
resp_of_packet-code expected b (some x) r h = cc
resp_of_packet-code expected [] none r h = cc
resp_of_packet-code expected (t ∷ b) none r h = typed_resp-code expected t b h

-- Whatever the server sends, a packet that `ReadResp` returns without an error has the type code
-- that the caller asked for.
pub read_resp-code :
    (expected : ℕ) (r : Reader) (p : Packet)
    → (read_resp expected r).0 ≡ ok p
    → get_code p ≡ expected
unfolding read_resp
read_resp-code expected r p h =
    let (b, e, r') = read_packet r in resp_of_packet-code expected b e r' h

status_case-ne-panic : (expected : ℕ) (b : Bytes) → status_case expected (status_resp b) ≢ panic
unfolding status_case status_resp parsed
status_case-ne-panic expected b = elim (Option-cases (unmarshal_status b).1) [
  | inl clean ↦ rw clean (λ h. ground arith)
  | inr (x, failed) ↦ rw failed (λ h. cc)
]

parsed_map-ne-panic :
    {A : Type 0} (r : Result A) (f : A → Packet) → r ≢ panic → map_result f r ≢ panic
parsed_map-ne-panic (ok a) f n h = cc
parsed_map-ne-panic (err e) f n h = cc
parsed_map-ne-panic panic f n h = absurd (n refl)

version_resp-ne-panic : (b : Bytes) → version_resp b ≢ panic
unfolding version_resp parsed
version_resp-ne-panic b h = ground arith

open_resp-ne-panic : (b : Bytes) → open_resp b ≢ panic
unfolding open_resp parsed
open_resp-ne-panic b h = ground arith

typed_resp-ne-panic : (expected t : ℕ) (b : Bytes) → typed_resp expected t b ≢ panic
unfolding typed_resp
typed_resp-ne-panic expected t b h = ground (
  arith,
  status_case-ne-panic expected b,
  parsed_map-ne-panic (version_resp b) version_pkt (version_resp-ne-panic b),
  parsed_map-ne-panic (open_resp b) handle_pkt (open_resp-ne-panic b),
)

-- `io.ReadFull` fails on a short input, and else cuts the input.
read_full-cases :
    (n : ℕ) (r : Reader)
    → ((x : IoError) × (b : Bytes) × (r' : Reader) × (read_full n r ≡ (b, some x, r')))
      ⊎ ((n ≤ length r.pending)
          × (read_full n r ≡ (take n r.pending, none, record r { pending = drop n r.pending })))
unfolding read_full
read_full-cases n r = elim (Bool-cases (ltb (length r.pending) n)) [
  | inl short ↦ inl (
    full_error (length r.pending) r.ending,
    r.pending ++ replicate (n - length r.pending) 0,
    record r { pending = [] },
    rw short,
  )
  | inr enough ↦ inr (ltb_false→le _ n enough, rw enough)
]

read_failure-err :
    (expected : ℕ) (b : Bytes) (x : IoError) (r : Reader)
    → (resp_of_packet expected ((read_failure b x).0, (read_failure b x).1, r)).0 ≢ panic
unfolding resp_of_packet read_failure
read_failure-err expected b eof r h = cc
read_failure-err expected b unexpected_eof r h = cc
read_failure-err expected b (io_failure n) r h = cc

body-panic :
    (expected n : ℕ) (r : Reader)
    → (resp_of_packet expected (body_result (read_full n r))).0 ≡ panic
    → n ≡ 0
body-panic expected n r h = elim (read_full-cases n r) [
  | inl (x, b, r', e) ↦ absurd (read_failure-err expected b x r' (rw e at h))
  | inr (enough, e) ↦ body-taken expected n _ _ (rw e at h) (omega (arith, length-take n r.pending))
]
  where
    body-taken :
        (expected n : ℕ) (b : Bytes) (r' : Reader)
        → (resp_of_packet expected (b, none, r')).0 ≡ panic
        → length b ≡ n
        → n ≡ 0
    body-taken expected n [] r' h e = omega arith
    body-taken expected n (t ∷ b) r' h e =
        absurd (typed_resp-ne-panic expected t b (unfold resp_of_packet in h))

panic-zero :
    (expected : ℕ) (r : Reader)
    → All IsByte r.pending
    → (read_resp expected r).0 ≡ panic
    → take 4 r.pending ≡ 0 ∷ 0 ∷ 0 ∷ 0 ∷ []
unfolding read_resp read_packet
panic-zero expected r bytes h = elim (read_full-cases 4 r) [
  | inl (x, b, r', e) ↦ absurd (read_failure-err expected b x r' (rw e at h))
  | inr (enough, e) ↦
      let head = take 4 r.pending in
      let n0 : unmarshal_uint32 head ≡ 0 = body-panic expected _ _ (rw e at h) in
      let back =
        marshal_uint32-unmarshal_uint32 head (omega (arith, length-take 4 r.pending))
          (All-take IsByte 4 r.pending bytes) in
      sym back ∙ rw n0 (unfold marshal_uint32 in refl)
]

zero-panic :
    (expected : ℕ) (rest : Bytes) (e : IoError)
    → (read_resp expected (record { pending = 0 ∷ 0 ∷ 0 ∷ 0 ∷ rest; ending = e })).0 ≡ panic
unfolding read_resp read_packet resp_of_packet unmarshal_uint32
zero-panic expected rest e =
    rw (read_full-append (0 ∷ 0 ∷ 0 ∷ 0 ∷ []) rest e 4 refl, read_full-append [] rest e 0 refl) refl

-- `ReadResp` panics on a stream of bytes exactly when the stream begins with the length 0.
pub read_resp_panic :
    (expected : ℕ) (r : Reader)
    → All IsByte r.pending
    → ((read_resp expected r).0 ≡ panic) ↔ (take 4 r.pending ≡ 0 ∷ 0 ∷ 0 ∷ 0 ∷ [])
read_resp_panic expected r bytes = (
  panic-zero expected r bytes,
  λ z.
      let split : 0 ∷ 0 ∷ 0 ∷ 0 ∷ drop 4 r.pending ≡ r.pending =
        ap (λ (x : Bytes). x ++ drop 4 r.pending) (sym z) ∙ take-append-drop 4 r.pending in
      subst
        (λ (x : Bytes). (read_resp expected (record { pending = x; ending = r.ending })).0 ≡ panic)
        split (zero-panic expected (drop 4 r.pending) r.ending),
)
