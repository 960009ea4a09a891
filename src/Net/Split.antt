-- ===== src/Net/Split.antt =====
-- `SplitHostPort` takes apart what `JoinHostPort` makes.
use flightsim.Prelude.{
  ℕ, ◌≡◌, ◌≢◌, refl, ap, false, [], ◌∷◌, ◌++◌, none, some, inl, inr, Bool-cases, ◌==◌, ==_iff,
  length, length-append, arith,
}
use flightsim.Prelude.Bytes.{Bytes, contains_byte}
use flightsim.Net.{split_first, split_last, split_host_port, join_host_port}

split_first-append :
    (c : ℕ) (a b : Bytes) → contains_byte c a ≡ false → split_first c (a ++ (c ∷ b)) ≡ some (a, b)
unfolding split_first contains_byte
split_first-append c [] b h = rw ((==_iff c c).1 refl) refl
split_first-append c (x ∷ a) b h =
    let apart : (x == c) ≡ false = ground arith in
    rw (apart, split_first-append c a b (ground arith)) refl

split_last-none : (c : ℕ) (s : Bytes) → contains_byte c s ≡ false → split_last c s ≡ none
unfolding split_last contains_byte
split_last-none c [] h = refl
split_last-none c (x ∷ s) h =
    let apart : (x == c) ≡ false = ground arith in
    rw (split_last-none c s (ground arith), apart) refl

split_last-append :
    (c : ℕ) (a b : Bytes) → contains_byte c b ≡ false → split_last c (a ++ (c ∷ b)) ≡ some (a, b)
unfolding split_last
split_last-append c [] b h = rw (split_last-none c b h, (==_iff c c).1 refl) refl
split_last-append c (x ∷ a) b h = rw (split_last-append c a b h) refl

contains_byte-apart :
    (c x : ℕ) (a b : Bytes)
    → contains_byte c a ≡ false
    → contains_byte c b ≡ false
    → x ≢ c
    → contains_byte c (a ++ (x ∷ b)) ≡ false
unfolding contains_byte
contains_byte-apart c x [] b ha hb apart = ground arith
contains_byte-apart c x (y ∷ a) b ha hb apart =
    ground (arith, contains_byte-apart c x a b (ground arith) hb apart)

module _ (host port : Bytes) (host_open : contains_byte b'[' host ≡ false)
    (host_close : contains_byte b']' host ≡ false) (port_colon : contains_byte b':' port ≡ false)
    (port_open : contains_byte b'[' port ≡ false)
    (port_close : contains_byte b']' port ≡ false) where
  split_plain :
      (whole : Bytes)
      → whole ≡ host ++ (b':' ∷ port)
      → contains_byte b':' host ≡ false
      → split_host_port whole ≡ some (host, port)
  unfolding split_host_port
  split_plain [] e colon = absurd (omega (arith, ap length e, length-append host (b':' ∷ port)))
  split_plain (x ∷ xs) e colon =
      let no_open : contains_byte b'[' (x ∷ xs) ≡ false =
        rw e
          (contains_byte-apart b'[' b':' host port host_open port_open (λ h. omega (arith, h))) in
      let no_close : contains_byte b']' (x ∷ xs) ≡ false =
        rw e
          (contains_byte-apart b']' b':' host port host_close port_close (λ h. omega (arith, h))) in
      let first : (x == b'[') ≡ false = unfold contains_byte in ground arith in
      let cut : split_last b':' (x ∷ xs) ≡ some (host, port) =
        rw e (split_last-append b':' host port port_colon) in
      rw (first, cut, colon, no_open, no_close) refl

  -- A host without brackets and a port without colon and brackets come back.
  pub split_host_port-join_host_port :
      split_host_port (join_host_port host port) ≡ some (host, port)
  unfolding join_host_port
  split_host_port-join_host_port = elim (Bool-cases (contains_byte b':' host)) [
    | inl colon ↦ rw colon (
        unfold split_host_port in
        rw
          (
            split_first-append b']' host (b':' ∷ port) host_close,
            port_colon,
            host_open,
            port_open,
            port_close,
          )
          refl)
    | inr plain ↦ rw plain (split_plain (host ++ (b':' ∷ port)) refl plain)
  ]
