-- ===== src/Simulator/Irc/Target.antt =====
-- The server and the port that the IRC simulator connects to.
use flightsim.Prelude.{
  ℕ, zero, suc, ◌+◌, ◌-◌, ◌*◌, ◌/◌, ◌%◌, ◌^◌, ◌<◌, ◌≤◌, ◌≡◌, refl, false, ◌&&◌, [], ◌∷◌, ◌++◌, some,
  inl, inr, Bool-cases, ◌==◌, ltb, leb, lt→ltb, ltb_false→le, length, length-append, arith,
}
use flightsim.Prelude.Bytes.{Bytes, contains_byte, itoa, itoa_fuel}
use flightsim.Net.{join_host_port}
use flightsim.Net.Split.{split_host_port-join_host_port}
use flightsim.Wisdom.{pos}
use flightsim.Simulator.Irc.{digits_of, atoi, irc_target}

digits_of-append :
    (a b : Bytes) (n m : ℕ) → digits_of a n ≡ some m → digits_of (a ++ b) n ≡ digits_of b m
unfolding digits_of
digits_of-append [] b n m h = let same : n ≡ m = cc h in rw same refl
digits_of-append (c ∷ a) b n m h = elim (Bool-cases (leb 48 c && leb c 57)) [
  | inl digit ↦ rw digit (digits_of-append a b (10 * n + (c - 48)) m (rw digit at h))
  | inr other ↦ absurd (cc (rw other at h))
]

-- A text of digits holds none of the other characters.
digits_of-contains_byte :
    (c : ℕ) (s : Bytes) (n m : ℕ) → 57 < c → digits_of s n ≡ some m → contains_byte c s ≡ false
unfolding digits_of contains_byte
digits_of-contains_byte c [] n m big h = refl
digits_of-contains_byte c (x ∷ s) n m big h = elim (Bool-cases (leb 48 x && leb x 57)) [
  | inl digit ↦
      let rest = digits_of-contains_byte c s (10 * n + (x - 48)) m big (rw digit at h) in
      ground arith
  | inr other ↦ absurd (cc (rw other at h))
]

digits_of_one : (d n : ℕ) → d < 10 → digits_of ((48 + d) ∷ []) n ≡ some (10 * n + d)
unfolding digits_of
digits_of_one d n h = ground arith

digits_of-itoa_fuel : (fuel n : ℕ) → n < fuel → digits_of (itoa_fuel fuel n) 0 ≡ some n
unfolding itoa_fuel
digits_of-itoa_fuel zero n h = absurd (omega arith)
digits_of-itoa_fuel (suc fuel) n h = elim (Bool-cases (ltb n 10)) [
  | inl small ↦ ground (arith, digits_of_one n 0)
  | inr large ↦
      let front = itoa_fuel fuel (n / 10) in
      let before = digits_of-itoa_fuel fuel (n / 10) (omega (arith, ltb_false→le n 10 large)) in
      ground (
        arith,
        digits_of-append front ((48 + n % 10) ∷ []) 0 (n / 10) before,
        digits_of_one (n % 10) (n / 10),
      )
]

digits_of-itoa : (n : ℕ) → digits_of (itoa n) 0 ≡ some n
unfolding itoa
digits_of-itoa n = digits_of-itoa_fuel (n + 1) n (omega arith)

itoa_nonempty : (n : ℕ) → 0 < length (itoa n)
unfolding itoa itoa_fuel
itoa_nonempty n = ground (arith, length-append (itoa_fuel n (n / 10)) ((48 + n % 10) ∷ []))

first_digit : (c : ℕ) (cs : Bytes) (n m : ℕ) → digits_of (c ∷ cs) n ≡ some m → 48 ≤ c
unfolding digits_of
first_digit c cs n m h = elim (Bool-cases (leb 48 c && leb c 57)) [
  | inl digit ↦ ground arith
  | inr other ↦ absurd (cc (rw other at h))
]

atoi_digits :
    (s : Bytes) (n : ℕ) → 0 < length s → digits_of s 0 ≡ some n → n < 2 ^ 63 → atoi s ≡ some (pos n)
unfolding atoi
atoi_digits [] n some_byte h small = absurd (omega arith)
atoi_digits (c ∷ cs) n some_byte h small =
    let digit : 48 ≤ c = first_digit c cs 0 n h in
    let no_minus : (c == b'-') ≡ false = ground arith in
    let no_plus : (c == b'+') ≡ false = ground arith in
    rw (no_minus, no_plus, h, lt→ltb n (2 ^ 63) small) refl

pub atoi-itoa : (n : ℕ) → n < 2 ^ 63 → atoi (itoa n) ≡ some (pos n)
atoi-itoa n small = atoi_digits (itoa n) n (itoa_nonempty n) (digits_of-itoa n) small

-- From a host without brackets and a port that fits `int`, joined as the host list does, the
-- simulator takes that host and that port, also for an IPv6 address.
pub irc_target-join_host_port :
    (host : Bytes) (port : ℕ)
    → contains_byte b'[' host ≡ false
    → contains_byte b']' host ≡ false
    → port < 2 ^ 63
    → irc_target (join_host_port host (itoa port)) ≡ inr (host, pos port)
unfolding irc_target
irc_target-join_host_port host port host_open host_close small =
    let digits = λ (c : ℕ) (big : 57 < c).
      digits_of-contains_byte c (itoa port) 0 port big (digits_of-itoa port) in
    rw
      (
        split_host_port-join_host_port host (itoa port) host_open host_close
            (digits b':' (omega arith)) (digits b'[' (omega arith)) (digits b']' (omega arith)),
        atoi-itoa port small,
      )
      refl
