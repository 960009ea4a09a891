-- ===== src/Simulator/IcmpTunnel/Pings.antt =====
-- Which messages `Simulate` of the ICMP tunnel sends.
use Prim.Native.Nat.{bit_and}
use flightsim.Prelude.{
  ◌++◌, ℕ, zero, suc, ◌≤◌, ◌≡◌, ◌⊎◌, inl, inr, refl, sym, ap, true, ◌&&◌, List, [], ◌∷◌, Option,
  none, some, length, take, drop, length-drop, Bool-cases, Option-cases, ◌==◌, ==_iff, arith,
}
use flightsim.Prelude.Bytes.{codes, Bytes, bytes_eq}
use flightsim.Utils.Net.{to4, v4_in_v6}
use flightsim.Simulator.IcmpTunnel.{
  to16, Echo, ping_count, IcmpError, first_ipv4, resolved, hostname_to_ipv4, IcmpNetwork, Ping,
  echo_of, after_read, after_ping, after_lookup, after_marshal, ping_loop, icmp_simulate,
}

length-to4 : (ip a : Bytes) → to4 ip ≡ some a → length a ≡ 4
unfolding to4
length-to4 ip a h = elim (Bool-cases (length ip == 4)) [
  | inl four ↦
      let same : ip ≡ a = cc (rw four at h) in rw (sym same) ((==_iff (length ip) 4).0 four)
  | inr other ↦ elim (Bool-cases (length ip == 16 && bytes_eq (take 12 ip) v4_in_v6)) [
    | inl six ↦
        let same : drop 12 ip ≡ a = cc (rw (other, six) at h) in
        let long : (length ip == 16) ≡ true = ground arith in
        rw (sym same) (omega (arith, length-drop 12 ip, (==_iff (length ip) 16).0 long))
    | inr neither ↦ absurd (cc (rw (other, neither) at h))
  ]
]

length-first_ipv4 : (ips : List Bytes) (a : Bytes) → first_ipv4 ips ≡ some a → length a ≡ 4
unfolding first_ipv4
length-first_ipv4 [] a h = absurd (cc h)
length-first_ipv4 (ip ∷ ips) a h = elim (Option-cases (to4 ip)) [
  | inl e ↦ length-first_ipv4 ips a (rw (e, first_ipv4) at h)
  | inr (b, e) ↦
      length-to4 ip a (let same : b ≡ a = cc (rw (e, first_ipv4) at h) in rw (e, same) refl)
]

length-hostname_to_ipv4 :
    {E : Type 0} (answer : E ⊎ List Bytes) (a : Bytes)
    → hostname_to_ipv4 answer ≡ inr a
    → length a ≡ 4
unfolding hostname_to_ipv4
length-hostname_to_ipv4 (inl e) a h = absurd (cc h)
length-hostname_to_ipv4 {E = E} (inr ips) a h = length-first_ipv4 ips a (found (first_ipv4 ips) h)
  where
    found : (r : Option Bytes) → resolved {E = E} r ≡ inr a → r ≡ some a
    found none e = absurd (cc e)
    found (some b) e = let same : b ≡ a = cc e in ap some same

module _ {E G : Type 0} (net : IcmpNetwork E) (read_random : G → ℕ → Bytes × G) (pid : ℕ) where
  -- An echo request with its number, the process in 16 bits, and the text in front of random bytes.
  abbrev pub IsRequest : ℕ → Echo → Type 0
  IsRequest i echo =
      (echo.seq ≡ i)
      × (echo.id ≡ bit_and pid 65535)
      × ((random : Bytes) × (echo.payload ≡ codes "alphasoc-flightsim:" ++ random))

  -- The messages from number `i` on: each is the encoding of the request of its number, sent to the form
  -- of 16 bytes of an address of 4.
  unfoldable pub AreEchoes : ℕ → List Ping → Type 0
  AreEchoes i [] = Unit
  AreEchoes i (ping ∷ pings) =
      ((echo : Echo) × IsRequest i echo × (net.marshal echo ≡ inr ping.message))
      × ((ip : Bytes) × (length ip ≡ 4) × (ping.to ≡ v4_in_v6 ++ ip))
      × AreEchoes (suc i) pings

  abbrev pub Sends : ℕ → ℕ → List Ping × Option (IcmpError E) → Type 0
  Sends left i (pings, err) =
      AreEchoes i pings
      × (length pings ≤ left)
      × ((length pings ≡ left) ⊎ ((e : IcmpError E) × (err ≡ some e)))

  after_ping-Sends :
      (left i : ℕ) (random binmsg ip : Bytes) (rest : List Ping × Option (IcmpError E))
      (err : Option E)
      → net.marshal (echo_of net read_random pid i random) ≡ inr binmsg
      → length ip ≡ 4
      → Sends left (suc i) rest
      → Sends
          (suc left)
          i
          (after_ping net read_random pid i (record { to = to16 ip; message = binmsg }) err rest)
  unfolding AreEchoes
  after_ping-Sends left i random binmsg ip rest (some e) m four s = (tt, omega arith, inr (_, refl))
  after_ping-Sends left i random binmsg ip rest none m four s = by (net.read_err i) rest s
    where
      by :
          (err : Option E) (r : List Ping × Option (IcmpError E))
          → Sends left (suc i) r
          → Sends (suc left) i (
            record { to = to16 ip; message = binmsg } ∷ (after_read net read_random pid err r).0,
            (after_read net read_random pid err r).1,
          )
      by (some e) r s' = (
        (
          (echo_of net read_random pid i random, (refl, refl, (random, refl)), m),
          (ip, four, refl),
          tt,
        ),
        omega arith,
        inr (_, refl),
      )
      by none (pings, x) (echoes, few, all) = (
        (
          (echo_of net read_random pid i random, (refl, refl, (random, refl)), m),
          (ip, four, refl),
          echoes,
        ),
        omega arith,
        elim all [ inl n ↦ inl (omega (arith, n)) | inr e ↦ inr e ],
      )

  after_lookup-Sends :
      (left i : ℕ) (random binmsg : Bytes) (rest : List Ping × Option (IcmpError E))
      (answer : IcmpError E ⊎ Bytes)
      → net.marshal (echo_of net read_random pid i random) ≡ inr binmsg
      → ((ip : Bytes) → answer ≡ inr ip → length ip ≡ 4)
      → Sends left (suc i) rest
      → Sends (suc left) i (after_lookup net read_random pid i binmsg answer rest)
  unfolding AreEchoes
  after_lookup-Sends left i random binmsg rest (inl e) m four s = (tt, omega arith, inr (_, refl))
  after_lookup-Sends left i random binmsg rest (inr ip) m four s =
      after_ping-Sends left i random binmsg ip rest (net.write_err i) m (four ip refl) s

  after_marshal-Sends :
      (left i : ℕ) (random : Bytes) (rest : List Ping × Option (IcmpError E)) (bytes : E ⊎ Bytes)
      → net.marshal (echo_of net read_random pid i random) ≡ bytes
      → Sends left (suc i) rest
      → Sends (suc left) i (after_marshal net read_random pid i bytes rest)
  unfolding AreEchoes
  after_marshal-Sends left i random rest (inl e) m s = (tt, omega arith, inr (_, refl))
  after_marshal-Sends left i random rest (inr binmsg) m s =
      after_lookup-Sends left i random binmsg rest (hostname_to_ipv4 (net.lookup_ip i)) m
        (λ ip e. length-hostname_to_ipv4 (net.lookup_ip i) ip e) s

  ping_loop-Sends : (left i : ℕ) (g : G) → Sends left i (ping_loop net read_random pid left i g)
  unfolding ping_loop AreEchoes
  ping_loop-Sends zero i g = (tt, omega arith, inl refl)
  ping_loop-Sends (suc left) i g =
      let (random, g') = read_random g 1400 in
      after_marshal-Sends left i random _ (net.marshal (echo_of net read_random pid i random)) refl
        (ping_loop-Sends left (suc i) g')

  -- The simulation sends at most 80 echo requests, numbered from 0 in order, each to the form of 16
  -- bytes of an IPv4 address, and it sends all 80 or ends with an error.
  pub icmp_simulate-Sends :
      (g : G)
      → let (pings, err) = icmp_simulate net read_random pid g in
        AreEchoes 0 pings
        × (length pings ≤ ping_count)
        × ((length pings ≡ ping_count) ⊎ ((e : IcmpError E) × (err ≡ some e)))
  unfolding icmp_simulate
  icmp_simulate-Sends g = ping_loop-Sends 80 0 g
