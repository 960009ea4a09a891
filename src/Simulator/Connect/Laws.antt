-- ===== src/Simulator/Connect/Laws.antt =====
-- Which errors the simulators of v2/simulator/simulator.go report.
use flightsim.Prelude.{
  ◌≡◌, ◌↔◌, ◌⊎◌, inl, inr, refl, ap, Bool, true, false, ◌||◌, List, [], ◌∷◌, Option, none, some, In,
  Bool-cases, arith,
}
use flightsim.Prelude.Bytes.{Bytes, codes}
use flightsim.Prelude.Text.{contains_text, contains_text_iff, HasPart}
use flightsim.Utils.Net.{fqdn}
use flightsim.Utils.Net.Laws.{fqdn_lem}
use flightsim.Simulator.Connect.{
  GoError, close_if, contains_any, soft_net_error, is_soft_error, unless_soft, closed, dialled,
  looked_up, Dialled, tcp_simulate, dns_simulate, name_to_resolve,
}

-- The end of the input, or an error of package net that is a timeout or has one of the texts in it.
abbrev pub IsSoft : GoError → List Bytes → Type 0
IsSoft e ts =
    (e.is_eof ≡ true)
    ⊎ ((e.timeout ≡ some true)
        ⊎ ((e.timeout ≡ some false) × ((t : Bytes) × In t ts × HasPart e.text t)))

contains_any-HasPart :
    (s : Bytes) (ts : List Bytes) → contains_any s ts ≡ true → (t : Bytes) × In t ts × HasPart s t
unfolding contains_any
contains_any-HasPart s [] h = absurd (cc h)
contains_any-HasPart s (t ∷ ts) h = elim (Bool-cases (contains_text s t)) [
  | inl e ↦ let (front, back, f) = (contains_text_iff s t).0 e in (t, inl refl, (front, back, f))
  | inr e ↦ let (u, i, p) = contains_any-HasPart s ts (rw e at h) in (u, inr i, p)
]

HasPart-contains_any :
    (s t : Bytes) (ts : List Bytes) → In t ts → HasPart s t → contains_any s ts ≡ true
unfolding contains_any
HasPart-contains_any s t [] i h = absurd i
HasPart-contains_any s t (u ∷ ts) (inl e) h = rw ((contains_text_iff s u).1 (rw e at h)) refl
HasPart-contains_any s t (u ∷ ts) (inr i) h = rw (HasPart-contains_any s t ts i h) (ground arith)

-- `isSoftError` holds of an error exactly if it is soft.
is_soft_error-IsSoft :
    (e : GoError) (ts : List Bytes) → (is_soft_error (some e) ts ≡ true) ↔ IsSoft e ts
unfolding is_soft_error
is_soft_error-IsSoft e ts = (soft e.is_eof e.timeout, λ s. hard e.is_eof e.timeout s)
  where
    soft :
        (b : Bool) (t : Option Bool)
        → (b || soft_net_error t e.text ts) ≡ true
        → (b ≡ true)
          ⊎ ((t ≡ some true) ⊎ ((t ≡ some false) × ((u : Bytes) × In u ts × HasPart e.text u)))
    soft true t h = inl refl
    soft false none h = absurd (cc h)
    soft false (some true) h = inr (inl refl)
    soft false (some false) h = inr (inr (refl, contains_any-HasPart e.text ts h))

    hard :
        (b : Bool) (t : Option Bool)
        → (b ≡ true)
          ⊎ ((t ≡ some true) ⊎ ((t ≡ some false) × ((u : Bytes) × In u ts × HasPart e.text u)))
        → (b || soft_net_error t e.text ts) ≡ true
    hard b t (inl x) = rw x refl
    hard true t x = refl
    hard false t (inr (inl x)) = rw x refl
    hard false t (inr (inr (x, (u, i, p)))) = rw x (HasPart-contains_any e.text u ts i p)

-- An error is passed on exactly if it is not soft.
pub unless_soft_lem :
    (err : Option GoError) (ts : List Bytes) (e : GoError)
    → (unless_soft err ts ≡ some e) ↔ ((err ≡ some e) × ¬ IsSoft e ts)
unfolding unless_soft
unless_soft_lem none ts e = (λ h. cc h, λ h. cc (h.0))
unless_soft_lem (some x) ts e = elim (Bool-cases (is_soft_error (some x) ts)) [
  | inl soft ↦ (
    λ h. absurd (cc (rw soft at h)),
    λ h.
        let same : x ≡ e = cc (h.0) in
        absurd (h.1 ((is_soft_error-IsSoft e ts).0 (rw same at soft))),
  )
  | inr hard ↦ (
    λ h.
        let same : x ≡ e = cc (rw hard at h) in
        (ap some same, λ s. absurd (cc ((is_soft_error-IsSoft e ts).1 s, rw same at hard))),
    λ h. rw hard (h.0),
  )
]

pub unless_soft-none :
    (err : Option GoError) (ts : List Bytes) (e : GoError)
    → unless_soft err ts ≡ none
    → err ≡ some e
    → IsSoft e ts
unfolding unless_soft
unless_soft-none none ts e h x = absurd (cc x)
unless_soft-none (some y) ts e h x =
    let same : y ≡ e = cc x in
    elim (Bool-cases (is_soft_error (some y) ts)) [
      | inl soft ↦ (is_soft_error-IsSoft e ts).0 (rw same at soft)
      | inr hard ↦ absurd (cc (rw hard at h))
    ]

abbrev pub refused_text : List Bytes
refused_text = codes "connect: connection refused" ∷ []

-- A TCP connection is closed again exactly if there is one, and a simulation of one reports the error of the
-- dial exactly if that is not soft: an end of input, a timeout, or a connection refused.
pub tcp_simulate_lem :
    (dial : Bytes → Dialled) (dst : Bytes) (e : GoError)
    → (((tcp_simulate dial dst).0 ≡ some e) ↔ (((dial dst).err ≡ some e) × ¬ IsSoft e refused_text))
      × (In closed (tcp_simulate dial dst).1 ↔ ((dial dst).connected ≡ true))
unfolding tcp_simulate
tcp_simulate_lem dial dst e =
    (unless_soft_lem (dial dst).err refused_text e, closes (dial dst).connected)
  where
    closes : (up : Bool) → In closed (dialled dst ∷ close_if up) ↔ (up ≡ true)
    closes true = (λ _. refl, λ _. inr (inl refl))
    closes false = (λ i. elim i [ inl h ↦ absurd (cc h) | inr h ↦ absurd h ], λ h. absurd (cc h))

abbrev pub no_such_host : List Bytes
no_such_host = codes "no such host" ∷ []

-- A simulation of a lookup asks for one name, an absolute one, and reports the error of the lookup
-- exactly if that is not soft: an end of input, a timeout, or an error of a host not known.
pub dns_simulate_lem :
    (lookup : Bytes → Option GoError) (dst : Bytes) (e : GoError)
    → (name : Bytes) × ((dns_simulate lookup dst).1 ≡ looked_up name ∷ [])
      × (fqdn name ≡ name)
      × (((dns_simulate lookup dst).0 ≡ some e)
          ↔ ((lookup name ≡ some e) × ¬ IsSoft e no_such_host))
unfolding dns_simulate name_to_resolve
dns_simulate_lem lookup dst e = (
  name_to_resolve dst,
  refl,
  (fqdn_lem _).0,
  unless_soft_lem (lookup (name_to_resolve dst)) no_such_host e,
)
