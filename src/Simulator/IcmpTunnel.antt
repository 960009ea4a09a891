-- ===== src/Simulator/IcmpTunnel.antt =====
-- v2/simulator/tunnel-icmp.go. Package golang.org/x/net/icmp is a parameter, and so are the lookup
-- and what the connection gives.
pub mod Pings
use Prim.Native.Nat.{bit_and}
use flightsim.Prelude.{
  ℕ, zero, suc, ◌+◌, Bool, true, false, List, [], ◌∷◌, ◌++◌, Option, none, some, ◌⊎◌, inl, inr,
  ◌==◌, if◌then◌else◌,
}
use flightsim.Prelude.Bytes.{Bytes, codes}
use flightsim.Utils.Net.{to4, v4_in_v6}

abbrev pub ping_count : ℕ
ping_count = 80

abbrev pub payload_size : ℕ
payload_size = 1400

abbrev pub icmp_hosts : List Bytes
icmp_hosts = codes "icmp.sandbox-services.alphasoc.xyz" ∷ []

-- An `icmp.Message` of type echo and code 0.
pub record Echo : Type 0 where
  pub id : ℕ
  pub seq : ℕ
  pub payload : Bytes

pub data IcmpError (E : Type 0) : Type 0 where
  not_permitted listen_failed marshal_failed lookup_failed write_failed read_failed :
      E → IcmpError E
  no_ipv4 : IcmpError E

-- The loop of `hostnameToIPv4`: the first address that has an IPv4 form.
unfoldable pub first_ipv4 : List Bytes → Option Bytes
first_ipv4 [] = none
first_ipv4 (ip ∷ ips) = elim (to4 ip) [ some ip4 ↦ some ip4 | none ↦ first_ipv4 ips ]

abbrev pub resolved : {E : Type 0} → Option Bytes → IcmpError E ⊎ Bytes
resolved none = inl no_ipv4
resolved (some ip) = inr ip

unfoldable pub hostname_to_ipv4 : {E : Type 0} → E ⊎ List Bytes → IcmpError E ⊎ Bytes
hostname_to_ipv4 (inl e) = inl (lookup_failed e)
hostname_to_ipv4 (inr ips) = resolved (first_ipv4 ips)

-- `net.ParseIP(ip.String())` for an address of 4 bytes: its form of 16 bytes.
abbrev pub to16 : Bytes → Bytes
to16 ip = v4_in_v6 ++ ip

-- What the system gives in round `i`: the bytes of a message, the lookup, and the errors of the
-- write and of the read.
pub record IcmpNetwork (E : Type 0) : Type 0 where
  pub marshal : Echo → E ⊎ Bytes
  pub lookup_ip : ℕ → E ⊎ List Bytes
  pub write_err : ℕ → Option E
  pub read_err : ℕ → Option E

-- A packet that was sent, with its address.
pub record Ping : Type 0 where
  pub to : Bytes
  pub message : Bytes

module _ {E G : Type 0} (net : IcmpNetwork E) (read_random : G → ℕ → Bytes × G) (pid : ℕ) where
  abbrev pub echo_of : ℕ → Bytes → Echo
  echo_of i random = record {
    id = bit_and pid 65535;
    seq = i;
    payload = codes "alphasoc-flightsim:" ++ random;
  }

  abbrev pub after_read :
      Option E → List Ping × Option (IcmpError E) → List Ping × Option (IcmpError E)
  after_read (some e) rest = ([], some (read_failed e))
  after_read none rest = rest

  abbrev pub after_ping :
      ℕ → Ping → Option E → List Ping × Option (IcmpError E) → List Ping × Option (IcmpError E)
  after_ping i ping (some e) rest = ([], some (write_failed e))
  after_ping i ping none rest =
      let (pings, err) = after_read (net.read_err i) rest in (ping ∷ pings, err)

  abbrev pub after_lookup :
      ℕ
      → Bytes
      → IcmpError E ⊎ Bytes
      → List Ping × Option (IcmpError E)
      → List Ping × Option (IcmpError E)
  after_lookup i binmsg (inl e) rest = ([], some e)
  after_lookup i binmsg (inr ip) rest =
      after_ping i (record { to = to16 ip; message = binmsg }) (net.write_err i) rest

  abbrev pub after_marshal :
      ℕ → E ⊎ Bytes → List Ping × Option (IcmpError E) → List Ping × Option (IcmpError E)
  after_marshal i (inl e) rest = ([], some (marshal_failed e))
  after_marshal i (inr binmsg) rest =
      after_lookup i binmsg (hostname_to_ipv4 (net.lookup_ip i)) rest

  -- The loop from round `i` on, with the rounds left.
  unfoldable pub ping_loop : ℕ → ℕ → G → List Ping × Option (IcmpError E)
  ping_loop zero i g = ([], none)
  ping_loop (suc left) i g =
      let (random, g') = read_random g payload_size in
      after_marshal i (net.marshal (echo_of i random)) (ping_loop left (suc i) g')

  -- `(*ICMPtunnel).Simulate`
  unfoldable pub icmp_simulate : G → List Ping × Option (IcmpError E)
  icmp_simulate g = ping_loop ping_count 0 g

-- How `icmp.ListenPacket` ends, with whether the error is the system's error 1.
pub data Listened (C E : Type 0) : Type 0 where
  listening : C → Listened C E
  failed : E → Bool → Listened C E

-- `Init`: its error and the field `c`.
unfoldable pub icmp_init : {C E : Type 0} → Listened C E → Option (IcmpError E) × Option C
icmp_init (listening c) = (none, some c)
icmp_init (failed e true) = (some (not_permitted e), none)
icmp_init (failed e false) = (some (listen_failed e), none)

-- `Cleanup`: the connection that it closes.
unfoldable pub icmp_cleanup : {C : Type 0} → Option C → List C
icmp_cleanup none = []
icmp_cleanup (some c) = c ∷ []
