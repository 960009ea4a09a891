-- ===== src/Simulator/Scan.antt =====
-- v2/simulator/scan.go: the random addresses of a port scan. The random generator is a parameter:
-- `read_random g n` gives `n` bytes. A host is kept as the four bytes of its address until it is
-- printed: `String` is one to one on these, and `net.ParseIP` its inverse. `size` is not negative.
pub mod Hosts
pub mod Ports
use Prim.Native.Nat.{bit_and, bit_or}
use flightsim.Prelude.{
  ℕ, zero, suc, ◌+◌, ◌-◌, ◌*◌, ◌/◌, ◌%◌, Bool, true, false, ◌||◌, List, [], ◌∷◌, ◌++◌, Option, none,
  some, length, take, get_or, map, min, ltb, if◌then◌else◌,
}
use flightsim.Prelude.Bytes.{Bytes, bytes_eq, itoa}
use flightsim.Simulator.Connect.{
  BindAddr, BoundSimulator, init_bound, GoError, Action, waited, Dialled, tcp_simulate,
}
use flightsim.Prelude.Sort.{sort_bytes, contains}

-- A `net.IPNet`.
pub record Network : Type 0 where
  pub ip : Bytes
  pub mask : Bytes

abbrev pub no_network : Network
no_network = record { ip = []; mask = [] }

unfoldable pub scan_ip_ranges : List Network
scan_ip_ranges =
    record { ip = 192 ∷ 0 ∷ 2 ∷ 0 ∷ []; mask = 255 ∷ 255 ∷ 255 ∷ 0 ∷ [] }
    ∷ record { ip = 198 ∷ 51 ∷ 100 ∷ 0 ∷ []; mask = 255 ∷ 255 ∷ 255 ∷ 0 ∷ [] }
    ∷ record { ip = 203 ∷ 0 ∷ 113 ∷ 0 ∷ []; mask = 255 ∷ 255 ∷ 255 ∷ 0 ∷ [] }
    ∷ []

-- One byte of the address: the random bits that the mask leaves free, and the network's.
abbrev pub rand_byte : ℕ → ℕ → ℕ → ℕ
rand_byte random mask ip = bit_or (bit_and random (255 - mask)) ip

unfoldable pub rand_bytes : Bytes → Bytes → Bytes → Bytes
rand_bytes (r ∷ rs) (m ∷ ms) (n ∷ ns) = rand_byte r m n ∷ rand_bytes rs ms ns
rand_bytes _ _ _ = []

module _ {G : Type 0} (read_random : G → ℕ → Bytes × G) where
  -- `randIP`
  unfoldable pub rand_ip : Network → G → Bytes × G
  rand_ip network g =
      let (random, g') = read_random g (length network.mask) in
      (rand_bytes random network.mask network.ip, g')

  -- The loop of `Hosts` with the rounds left; an address is in `dedup` exactly if it is in `hosts`.
  unfoldable pub collect_hosts : ℕ → ℕ → List ℕ → List Bytes → G → List Bytes
  collect_hosts zero size net_idx hosts g = hosts
  collect_hosts (suc rounds) size net_idx hosts g =
      let place = length hosts % length net_idx in
      let (ip, g') = rand_ip (get_or scan_ip_ranges (get_or net_idx place 0) no_network) g in
      let rest =
        collect_hosts rounds size net_idx (if contains ip hosts then hosts else hosts ++ (ip ∷ []))
          g' in
      if ltb (length hosts) size then rest else hosts

  -- `order` is the result of `rand.Perm(len(scanIPRanges))`.
  unfoldable pub scan_hosts : List ℕ → ℕ → G → List Bytes
  scan_hosts order size g =
      let num_of_nets = min (size / 20 + 1) (length scan_ip_ranges) in
      sort_bytes (collect_hosts (2 * size) size (take num_of_nets order) [] g)

-- The address in print.
unfoldable pub ip_string : Bytes → Bytes
ip_string [] = []
ip_string (x ∷ []) = itoa x
ip_string (x ∷ y ∷ ip) = itoa x ++ (b'.' ∷ ip_string (y ∷ ip))

-- `(*PortScan).Hosts`, whose error is always nil.
unfoldable pub hosts_of_scan : {G : Type 0} → (G → ℕ → Bytes × G) → List ℕ → ℕ → G → List Bytes
hosts_of_scan read_random order size g = map ip_string (scan_hosts read_random order size g)

abbrev pub scan_ports : List ℕ
scan_ports =
    21 ∷ 22 ∷ 23 ∷ 25 ∷ 80 ∷ 88 ∷ 111 ∷ 135 ∷ 139 ∷ 143 ∷ 389 ∷ 443 ∷ 445 ∷ 1433 ∷ 1521 ∷ 3306
    ∷ 3389 ∷ 5432 ∷ 5900 ∷ 6000 ∷ 8443 ∷ []

abbrev pub port_address : Bytes → ℕ → Bytes
port_address dst port = dst ++ (b':' ∷ itoa port)

-- A dial that went well is followed by the wait for its context's end and the other ports.
abbrev pub after_port :
    Option GoError × List Action → Option GoError × List Action → Option GoError × List Action
after_port (some e, actions) rest = (some e, actions)
after_port (none, actions) (err, more) = (err, actions ++ (waited ∷ more))

unfoldable pub port_loop : (Bytes → Dialled) → Bytes → List ℕ → Option GoError × List Action
port_loop dial dst [] = (none, [])
port_loop dial dst (port ∷ ports) =
    after_port (tcp_simulate dial (port_address dst port)) (port_loop dial dst ports)

-- `(*PortScan).Simulate`
unfoldable pub scan_simulate : (Bytes → Dialled) → Bytes → Option GoError × List Action
scan_simulate dial dst = port_loop dial dst scan_ports

-- `(*PortScan).Init`
abbrev pub scan_init : BindAddr → BoundSimulator → BoundSimulator
scan_init bind s = init_bound bind s
