-- ===== src/Net/Join.antt =====
-- `JoinHostPort` keeps the host: with one port, different hosts give different texts.
use mathlib.Core.List.{append_cancel_right}
use flightsim.Prelude.{
  ℕ, ◌≡◌, inl, inr, sym, ap, ◌∙◌, true, [], ◌∷◌, ◌++◌, Bool-cases, append_assoc, arith,
}
use flightsim.Prelude.Bytes.{Bytes, contains_byte}
use flightsim.Net.{join_host_port}

contains_byte-append :
    (c : ℕ) (s t : Bytes) → contains_byte c s ≡ true → contains_byte c (s ++ t) ≡ true
unfolding contains_byte
contains_byte-append c [] t h = absurd (cc h)
contains_byte-append c (x ∷ s) t h = ground (arith, contains_byte-append c s t)

-- A host without a colon is not in brackets.
bracketed_apart :
    (a b port : Bytes)
    → contains_byte b':' b ≡ true
    → a ++ (b':' ∷ port) ≡ b'[' ∷ (b ++ (b']' ∷ b':' ∷ port))
    → contains_byte b':' a ≡ true
bracketed_apart a b port h e =
    let same : a ++ (b':' ∷ port) ≡ (b'[' ∷ (b ++ (b']' ∷ []))) ++ (b':' ∷ port) =
      e ∙ ap (◌∷◌ b'[') (sym (append_assoc b (b']' ∷ []) (b':' ∷ port))) in
    rw (append_cancel_right a (b'[' ∷ (b ++ (b']' ∷ []))) (b':' ∷ port) same)
      (unfold contains_byte in contains_byte-append b':' b (b']' ∷ []) h)

pub join_host_port_inj : (a b port : Bytes) → join_host_port a port ≡ join_host_port b port → a ≡ b
unfolding join_host_port
join_host_port_inj a b port h = elim (Bool-cases (contains_byte b':' a)) [
  | inl x ↦ elim (Bool-cases (contains_byte b':' b)) [
    | inl y ↦
        let same : b'[' ∷ (a ++ (b']' ∷ b':' ∷ port)) ≡ b'[' ∷ (b ++ (b']' ∷ b':' ∷ port)) =
          rw (x, y) at h in
        append_cancel_right a b (b']' ∷ b':' ∷ port) (cc)
    | inr y ↦ absurd (cc (y, bracketed_apart b a port x (sym (rw (x, y) at h))))
  ]
  | inr x ↦ elim (Bool-cases (contains_byte b':' b)) [
    | inl y ↦ absurd (cc (x, bracketed_apart a b port y (rw (x, y) at h)))
    | inr y ↦ append_cancel_right a b (b':' ∷ port) (rw (x, y) at h)
  ]
]
