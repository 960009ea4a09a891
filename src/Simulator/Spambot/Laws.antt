-- ===== src/Simulator/Spambot/Laws.antt =====
-- What `Hosts` of v2/simulator/spambot.go gives.
use flightsim.Prelude.{
  ℕ, ◌<◌, ◌≤◌, ◌≡◌, ◌≢◌, inl, inr, refl, ◌∙◌, List, [], ◌∷◌, length, ltb, ltb→lt, Bool-cases, In,
  All, All-append, length-append, map, get_or, arith,
}
use flightsim.Prelude.Bytes.{Bytes, codes}
use flightsim.Prelude.Sort.{contains, contains-All, Distinct, Distinct-append}
use flightsim.Net.{join_host_port}
use flightsim.Net.Join.{join_host_port_inj}
use flightsim.Utils.Net.{fqdn}
use flightsim.Simulator.Spambot.{
  popular_domains, trim_suffix, Found, with_host, with_mx, spam_loop, spam_hosts,
}

-- Port 25 of the first mail server of a domain.
abbrev pub IsMailHost : (Bytes → List Bytes) → List Bytes → Bytes → Type 0
IsMailHost lookup_mx domains host =
    (domain : Bytes) × (mx : Bytes) × (rest : List Bytes) × In domain domains
    × (lookup_mx (fqdn domain) ≡ mx ∷ rest)
    × (host ≡ join_host_port (trim_suffix b'.' mx) (codes "25"))

-- Each host is of a name seen.
abbrev IsOf : List Bytes → Bytes → Type 0
IsOf seen host = (name : Bytes) × In name seen × (host ≡ join_host_port name (codes "25"))

not_In : (name : Bytes) (xs : List Bytes) → All (λ y. name ≢ y) xs → In name xs → ⊥
not_In name [] h i = i
not_In name (x ∷ xs) h (inl e) = h.0 e
not_In name (x ∷ xs) h (inr i) = not_In name xs h.1 i

IsOf-new :
    (name : Bytes) (seen hosts : List Bytes)
    → All (λ y. name ≢ y) seen
    → All (IsOf seen) hosts
    → All (λ h. join_host_port name (codes "25") ≢ h) hosts
IsOf-new name seen [] new of = tt
IsOf-new name seen (h ∷ hosts) new of =
    let (other, i, e) = of.0 in
    (
      λ same. not_In name seen new (rw (join_host_port_inj name other (codes "25") (same ∙ e)) i),
      IsOf-new name seen hosts new of.1,
    )

IsOf-later :
    (name : Bytes) (seen hosts : List Bytes)
    → All (IsOf seen) hosts
    → All (IsOf (name ∷ seen)) hosts
IsOf-later name seen [] of = tt
IsOf-later name seen (h ∷ hosts) of =
    let (other, i, e) = of.0 in ((other, inr i, e), IsOf-later name seen hosts of.1)

module _ (lookup_mx : Bytes → List Bytes) (domains : List Bytes) (size : ℕ) where
  record IsGood (s : Found) : Type 0 where
    few : length s.hosts ≤ size
    distinct : Distinct s.hosts
    known : All (IsOf s.seen) s.hosts
    mail : All (IsMailHost lookup_mx domains) s.hosts

  with_host-IsGood :
      (host : Bytes) (s : Found)
      → length s.hosts < size
      → IsMailHost lookup_mx domains (join_host_port host (codes "25"))
      → IsGood s
      → IsGood (with_host host s)
  with_host-IsGood host s room m g = elim (Bool-cases (contains host s.seen)) [
    | inl old ↦ rw old g
    | inr new ↦
        let name = join_host_port host (codes "25") in
        let fresh = contains-All host s.seen new in
        rw new (record {
          few = omega (arith, length-append s.hosts (name ∷ []));
          distinct =
              Distinct-append name s.hosts (IsOf-new host s.seen s.hosts fresh g.known) g.distinct;
          known =
              All-append (IsOf (host ∷ s.seen)) s.hosts (name ∷ [])
                (IsOf-later host s.seen s.hosts g.known) ((host, inl refl, refl), tt);
          mail = All-append (IsMailHost lookup_mx domains) s.hosts (name ∷ []) g.mail (m, tt);
        })
  ]

  with_mx-IsGood :
      (domain : Bytes) (mxs : List Bytes) (s : Found)
      → length s.hosts < size
      → lookup_mx (fqdn domain) ≡ mxs
      → In domain domains
      → IsGood s
      → IsGood (with_mx mxs s)
  with_mx-IsGood domain [] s room e i g = g
  with_mx-IsGood domain (mx ∷ rest) s room e i g =
      with_host-IsGood (trim_suffix b'.' mx) s room (domain, mx, rest, i, e, refl) g

  spam_loop-IsGood :
      (rest : List Bytes) (s : Found)
      → ((d : Bytes) → In d rest → In d domains)
      → IsGood s
      → IsGood (spam_loop lookup_mx size rest s)
  unfolding spam_loop
  spam_loop-IsGood [] s sub g = g
  spam_loop-IsGood (domain ∷ rest) s sub g =
      let later =
        λ (s' : Found) (g' : IsGood s'). spam_loop-IsGood rest s' (λ d i. sub d (inr i)) g' in
      elim (Bool-cases (ltb (length s.hosts) size)) [
        | inr full ↦ rw full g
        | inl room ↦ rw room (
            later (with_mx (lookup_mx (fqdn domain)) s) (
              with_mx-IsGood domain (lookup_mx (fqdn domain)) s (ltb→lt (length s.hosts) size room)
                refl (sub domain (inl refl)) g))
      ]

-- `Hosts` of the spam simulator gives at most as many hosts as asked for, none twice, and each is
-- port 25 of the first mail server of a popular domain, one that the random order picks.
pub spam_hosts_lem :
    (lookup_mx : Bytes → List Bytes) (order : List ℕ) (size : ℕ)
    → let hosts = spam_hosts lookup_mx order size in
      (length hosts ≤ size)
      × Distinct hosts
      × All (IsMailHost lookup_mx (map (λ k. get_or popular_domains k []) order)) hosts
unfolding spam_hosts
spam_hosts_lem lookup_mx order size =
    let domains = map (λ k. get_or popular_domains k []) order in
    let start : IsGood lookup_mx domains size (record { hosts = []; seen = [] }) = record {
      few = omega arith;
      distinct = tt;
      known = tt;
      mail = tt;
    } in
    let g = spam_loop-IsGood lookup_mx domains size domains _ (λ d i. i) start in
    (g.few, g.distinct, g.mail)
