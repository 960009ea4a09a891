-- ===== src/Simulator/Tor.antt =====
-- v2/simulator/tor.go. Package github.com/cretz/bine/tor and the HTTP request are parameters.
use flightsim.Prelude.{
  ℕ, List, [], ◌∷◌, ◌++◌, Option, none, some, length, get_or, leb, if◌then◌else◌,
}
use flightsim.Prelude.Bytes.{Bytes, codes}

-- `torHosts`
unfoldable pub tor_hosts : List Bytes
tor_hosts =
    codes "expyuzz4wqqyqhjn.onion"
    ∷ codes "qrmfuxwgyzk5jdjz.onion"
    ∷ codes "e4nybovdbcwaqlyt.onion"
    ∷ codes "52g5y5karruvc7bz.onion"
    ∷ codes "x3nelbld33llasqv.onion"
    ∷ codes "vijs2fmpd72nbqok.onion"
    ∷ codes "z5tfsnikzulwicxs.onion"
    ∷ codes "icxe4yp32mq6gm6n.onion"
    ∷ codes "qigcb4g4xxbh5ho6.onion"
    ∷ codes "kkvj4mhsttfcrksj.onion"
    ∷ codes "3gldbgtv5e4god56.onion"
    ∷ codes "tgnv2pssfumdedyw.onion"
    ∷ codes "5bam5t36aombgv76.onion"
    ∷ codes "sdscoq7snqtznauu.onion"
    ∷ codes "rqef5a5mebgq46y5.onion"
    ∷ codes "ruv6ue7d3t22el2a.onion"
    ∷ codes "zfu7x4fuagirknhb.onion"
    ∷ codes "klbl4glo2btuwyok.onion"
    ∷ codes "ngp5wfw5z6ms3ynx.onion"
    ∷ codes "tngjm3owsslo3wgo.onion"
    ∷ codes "dccbbv6cooddgcrq.onion"
    ∷ codes "jqs44zhtxl2uo6gk.onion"
    ∷ codes "odz6noxeukaw43e7.onion"
    ∷ codes "54nujbl4qohb5qdp.onion"
    ∷ codes "eibwzyiqgk6vgugg.onion"
    ∷ codes "f7lqb5oicvsahone.onion"
    ∷ codes "y7pm6of53hzeb7u2.onion"
    ∷ codes "n46o4uxsej2icp5l.onion"
    ∷ codes "rougmnvswfsmd4dq.onion"
    ∷ codes "l3xrunzkfufzvw2c.onion"
    ∷ codes "kzcx36ytbsm5iogs.onion"
    ∷ codes "ebxqgaz3dwywcoxl.onion"
    ∷ codes "yz7lpwfhhzcdyc5y.onion"
    ∷ codes "tgel7v4rpcllsrk2.onion"
    ∷ codes "llhb3u5h3q66ha62.onion"
    ∷ codes "rh7jaux2r3tzrqp4.onion"
    ∷ codes "sbe5fi5cka5l3fqe.onion"
    ∷ codes "koz2sqqf4w23qxw2.onion"
    ∷ codes "hyntj47ow4ermsrh.onion"
    ∷ codes "yabd3wlpvybdnvzg.onion"
    ∷ codes "c5qrls2slxqz6vdw.onion"
    ∷ codes "wcgqzqyfi7a6iu62.onion"
    ∷ codes "6m6blys5mwg2jwex.onion"
    ∷ codes "fhny6b7b6sbslc2b.onion"
    ∷ codes "s2bweojt5vg52e5i.onion"
    ∷ codes "xlv5dckljs4vhmhm.onion"
    ∷ codes "lfdhmyq24uacliu5.onion"
    ∷ codes "vt5hknv6sblkgf22.onion"
    ∷ codes "buqlpzbbcyat2jiy.onion"
    ∷ codes "bn6kma5cpxill4pe.onion"
    ∷ codes "4bflp2c4tnynnbes.onion"
    ∷ codes "2xcd24wfjiqwzwnr.onion"
    ∷ codes "dgvdmophvhunawds.onion"
    ∷ codes "fylvgu5r6gcdadeo.onion"
    ∷ codes "2iqyjmvrkrq5h5mg.onion"
    ∷ codes "nraswjtnyrvywxk7.onion"
    ∷ codes "ea5faa5po25cf7fb.onion"
    ∷ codes "krkzagd5yo4bvypt.onion"
    ∷ codes "hzmun3rnnxjhkyhg.onion"
    ∷ codes "expyuzz4wqqyqhjn.onion"
    ∷ []

-- The loop of `Hosts` over the numbers in random order
unfoldable pub tor_loop : List ℕ → ℕ → List Bytes → List Bytes
tor_loop [] size hosts = hosts
tor_loop (i ∷ order) size hosts =
    let rest = tor_loop order size (hosts ++ (get_or tor_hosts i [] ∷ [])) in
    if leb size (length hosts) then hosts else rest

-- `(TorSimulator).Hosts`; `order` is the result of `rand.Perm(len(torHosts))`.
unfoldable pub hosts_of_tor : List ℕ → ℕ → List Bytes
hosts_of_tor order size = tor_loop order size []

pub data TorError (E : Type 0) : Type 0 where
  not_installed start_failed dialer_failed request_failed : E → TorError E

-- How `tor.Start` ends; `not_found` wraps `exec.ErrNotFound`.
pub data Started (P E : Type 0) : Type 0 where
  running : P → Started P E
  not_found failed : E → Started P E

-- `Init`: its error and the field `tor`.
unfoldable pub tor_init : {P E : Type 0} → Started P E → Option (TorError E) × Option P
tor_init (running p) = (none, some p)
tor_init (not_found e) = (some (not_installed e), none)
tor_init (failed e) = (some (start_failed e), none)

-- `Cleanup`: the process that it closes.
unfoldable pub tor_cleanup : {P : Type 0} → Option P → List P
tor_cleanup none = []
tor_cleanup (some p) = p ∷ []

abbrev requested : {E : Type 0} → Option E → Option (TorError E)
requested none = none
requested (some e) = some (request_failed e)

abbrev dialer_of : {E : Type 0} → (Bytes → Option E) → Bytes → Option E → Option (TorError E)
dialer_of get dst none = requested (get (codes "http://" ++ dst))
dialer_of get dst (some e) = some (dialer_failed e)

-- `Simulate`, with the errors of `Dialer` and of the request
unfoldable pub tor_simulate :
    {E : Type 0} → Option E → (Bytes → Option E) → Bytes → Option (TorError E)
tor_simulate dialer get dst = dialer_of get dst dialer
