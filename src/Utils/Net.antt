-- ===== src/Utils/Net.antt =====
-- v2/utils/net.go: the choice of an address to bind to, and absolute domain names. The network
-- interfaces, `net.ParseIP` and the connection are parameters; an address is its 4 or 16 bytes, as
-- in Go.
pub mod Laws
use Prim.Native.Nat.{bit_and}
use flightsim.Prelude.{
  ℕ, Bool, true, false, not, ◌&&◌, ◌||◌, List, [], ◌∷◌, ◌++◌, Option, none, some, ◌⊎◌, inl, inr,
  length, take, drop, get_or, ◌==◌, if◌then◌else◌,
}
use flightsim.Prelude.Bytes.{Bytes, bytes_eq, codes}
use flightsim.Prelude.Text.{trim_right}
use flightsim.Net.{split_host_port}

abbrev pub v4_in_v6 : Bytes
v4_in_v6 = 0 ∷ 0 ∷ 0 ∷ 0 ∷ 0 ∷ 0 ∷ 0 ∷ 0 ∷ 0 ∷ 0 ∷ 255 ∷ 255 ∷ []

abbrev loopback_v6 : Bytes
loopback_v6 = 0 ∷ 0 ∷ 0 ∷ 0 ∷ 0 ∷ 0 ∷ 0 ∷ 0 ∷ 0 ∷ 0 ∷ 0 ∷ 0 ∷ 0 ∷ 0 ∷ 0 ∷ 1 ∷ []

-- `net.IP.To4`
unfoldable pub to4 : Bytes → Option Bytes
unfolding bytes_eq
to4 ip =
    if length ip == 4
    then some ip
    else if length ip == 16 && bytes_eq (take 12 ip) v4_in_v6
    then some (drop 12 ip)
    else none

-- `net.IP.IsLoopback`, `IsLinkLocalUnicast` and `IsLinkLocalMulticast`
abbrev loopback : Bytes → Option Bytes → Bool
loopback ip (some ip4) = get_or ip4 0 0 == 127
loopback ip none = bytes_eq ip loopback_v6

abbrev link_local_unicast : Bytes → Option Bytes → Bool
link_local_unicast ip (some ip4) = get_or ip4 0 0 == 169 && get_or ip4 1 0 == 254
link_local_unicast ip none =
    length ip == 16 && (get_or ip 0 0 == 254 && bit_and (get_or ip 1 0) 192 == 128)

abbrev link_local_multicast : Bytes → Option Bytes → Bool
link_local_multicast ip (some ip4) =
    get_or ip4 0 0 == 224 && (get_or ip4 1 0 == 0 && get_or ip4 2 0 == 0)
link_local_multicast ip none =
    length ip == 16 && (get_or ip 0 0 == 255 && bit_and (get_or ip 1 0) 15 == 2)

unfoldable pub is_external_ip : Bytes → Bool
unfolding to4
is_external_ip ip =
    not
      (loopback ip (to4 ip) || (link_local_unicast ip (to4 ip) || link_local_multicast ip (to4 ip)))

-- A `net.Addr` of an interface; `other_addr` is of another dynamic type than the two of the switch.
pub data Addr : Type 0 where
  ip_addr ip_net : Bytes → Addr
  other_addr : Addr

-- The loop of `getAddrsFromInterface`
unfoldable pub addrs_of : List Addr → List Bytes
addrs_of [] = []
addrs_of (ip_addr ip ∷ addrs) = ip ∷ addrs_of addrs
addrs_of (ip_net ip ∷ addrs) = ip ∷ addrs_of addrs
addrs_of (other_addr ∷ addrs) = addrs_of addrs

-- The system: `net.ParseIP`, the addresses of an interface by its name (of `net.InterfaceByName` and
-- `Addrs`), and the local address of a connection to the internet.
pub record System (E : Type 0) : Type 0 where
  pub parse_ip : Bytes → Option Bytes
  pub interface_addrs : Bytes → E ⊎ List Addr
  pub local_addr : E ⊎ Bytes

pub data IpError (E : Type 0) : Type 0 where
  system_error : E → IpError E
  no_addresses missing_port : IpError E

-- A `net.IP` may be nil, here `none`, beside no error.
pub data IpResult (E : Type 0) : Type 0 where
  usable : Option Bytes → IpResult E
  unusable : IpError E → IpResult E

-- The loop of `UsableIP` over the addresses, with `extIPs` and `intIPs`.
unfoldable pub separate : List Bytes → List Bytes → List Bytes → List Bytes × List Bytes
separate [] ext_ips int_ips = (ext_ips, int_ips)
separate (ip ∷ ips) ext_ips int_ips =
    if is_external_ip ip
    then separate ips (ext_ips ++ (ip ∷ [])) int_ips
    else separate ips ext_ips (int_ips ++ (ip ∷ []))

-- An external address if there is one, else an internal one.
abbrev pub prefer : {E : Type 0} → List Bytes × List Bytes → IpResult E
prefer (ip ∷ ext_ips, int_ips) = usable (some ip)
prefer ([], ip ∷ int_ips) = usable (some ip)
prefer ([], []) = unusable no_addresses

abbrev pub of_interface : {E : Type 0} → E ⊎ List Addr → IpResult E
of_interface (inl e) = unusable (system_error e)
of_interface (inr addrs) = prefer (separate (addrs_of addrs) [] [])

abbrev pub of_name : {E : Type 0} → System E → Bytes → Option Bytes → IpResult E
of_name s name (some ip) = usable (some ip)
of_name s name none = of_interface (s.interface_addrs name)

abbrev of_host : {E : Type 0} → System E → Option (Bytes × Bytes) → IpResult E
of_host s none = unusable missing_port
of_host s (some (host, port)) = usable (s.parse_ip host)

abbrev of_connection : {E : Type 0} → System E → E ⊎ Bytes → IpResult E
of_connection s (inl e) = unusable (system_error e)
of_connection s (inr address) = of_host s (split_host_port address)

unfoldable pub usable_ip : {E : Type 0} → System E → Bytes → IpResult E
usable_ip s iface_name =
    if not (bytes_eq iface_name [])
    then of_name s iface_name (s.parse_ip iface_name)
    else of_connection s s.local_addr

-- `FQDN`
unfoldable pub fqdn : Bytes → Bytes
fqdn h = trim_right b'.' h ++ (b'.' ∷ [])
