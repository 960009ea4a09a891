-- ===== src/Utils/Net/Laws.antt =====
-- What `UsableIP` chooses, and the form of an absolute name.
use flightsim.Prelude.{
  ℕ, ◌≡◌, ◌≢◌, ◌⊎◌, inl, inr, refl, sym, ap, ◌∙◌, true, false, List, [], ◌∷◌, ◌++◌, none, some,
  replicate, Bool-cases, append_assoc, append-nil, if◌then◌else◌, In, All,
}
use flightsim.Prelude.Bytes.{Bytes, bytes_eq, bytes_eq_iff}
use flightsim.Prelude.Text.{
  trim_right, trim_right_split, trim_right-append, trim_right_idem, trim_right_last,
}
use flightsim.Utils.Net.{
  is_external_ip, separate, prefer, IpResult, usable, unusable, no_addresses, fqdn, System, Addr,
  addrs_of, usable_ip,
}

-- The external addresses, in order, and the others.
unfoldable externals : List Bytes → List Bytes
externals [] = []
externals (ip ∷ ips) = let rest = externals ips in if is_external_ip ip then ip ∷ rest else rest

unfoldable internals : List Bytes → List Bytes
internals [] = []
internals (ip ∷ ips) = let rest = internals ips in if is_external_ip ip then rest else ip ∷ rest

separate_lem :
    (ips ext_ips int_ips : List Bytes)
    → separate ips ext_ips int_ips ≡ (ext_ips ++ externals ips, int_ips ++ internals ips)
unfolding separate externals internals
separate_lem [] ext_ips int_ips = λ i. (sym (append-nil ext_ips) i, sym (append-nil int_ips) i)
separate_lem (ip ∷ ips) ext_ips int_ips = elim (Bool-cases (is_external_ip ip)) [
  | inl e ↦ rw e (rw append_assoc at (separate_lem ips (ext_ips ++ (ip ∷ [])) int_ips))
  | inr e ↦ rw e (rw append_assoc at (separate_lem ips ext_ips (int_ips ++ (ip ∷ []))))
]

externals-head :
    (ips : List Bytes) (ip : Bytes) (rest : List Bytes)
    → externals ips ≡ ip ∷ rest
    → In ip ips × (is_external_ip ip ≡ true)
unfolding externals
externals-head [] ip rest h = cc
externals-head (x ∷ ips) ip rest h = elim (Bool-cases (is_external_ip x)) [
  | inl e ↦
      let h' : x ∷ externals ips ≡ ip ∷ rest = rw e at h in
      let same : ip ≡ x = cc in (inl same, rw same e)
  | inr e ↦ let (i, t) = externals-head ips ip rest (rw e at h) in (inr i, t)
]

-- Without external addresses the internal ones are all.
externals-nil :
    (ips : List Bytes)
    → externals ips ≡ []
    → All (λ ip. is_external_ip ip ≡ false) ips × (internals ips ≡ ips)
unfolding externals internals
externals-nil [] h = (tt, refl)
externals-nil (x ∷ ips) h = elim (Bool-cases (is_external_ip x)) [
  | inl e ↦ let h' : x ∷ externals ips ≡ [] = rw e at h in absurd (cc h')
  | inr e ↦ let (all, same) = externals-nil ips (rw e at h) in ((e, all), rw (e, same) refl)
]

-- No address, or one of the list, which is external if any is.
abbrev pub IsBest : {E : Type 0} → List Bytes → IpResult E → Type 0
IsBest ips result =
    ((ips ≡ []) × (result ≡ unusable no_addresses))
    ⊎ ((ip : Bytes) × In ip ips
        × (result ≡ usable (some ip))
        × ((is_external_ip ip ≡ true) ⊎ All (λ i. is_external_ip i ≡ false) ips))

List-cases : {A : Type 0} (xs : List A) → (xs ≡ []) ⊎ ((x : A) × (rest : List A) × (xs ≡ x ∷ rest))
List-cases [] = inl refl
List-cases (x ∷ rest) = inr (x, rest, refl)

prefer-IsBest : {E : Type 0} (ips : List Bytes) → IsBest {E = E} ips (prefer (separate ips [] []))
prefer-IsBest ips = elim (List-cases (externals ips)) [
  | inr (ip, rest, e) ↦
      let (i, t) = externals-head ips ip rest e in
      inr (ip, i, rw (separate_lem ips [] [], e) refl, inl t)
  | inl e ↦
      let (all, same) = externals-nil ips e in
      elim (List-cases ips) [
        | inl empty ↦ inl (empty, rw (separate_lem ips [] [], e, same, empty) refl)
        | inr (ip, rest, f) ↦
            inr (ip, rw f (inl refl), rw (separate_lem ips [] [], e, same, f) refl, inr all)
      ]
]

-- `UsableIP` for a name that is no address itself, of an interface whose addresses can be had, fails
-- exactly if there is none, and else gives one of them, an external one if there is any.
pub usable_ip-IsBest :
    {E : Type 0} (s : System E) (name : Bytes) (addrs : List Addr)
    → name ≢ []
    → s.parse_ip name ≡ none
    → s.interface_addrs name ≡ inr addrs
    → IsBest (addrs_of addrs) (usable_ip s name)
unfolding usable_ip
usable_ip-IsBest s name addrs named not_ip up = elim (Bool-cases (bytes_eq name [])) [
  | inl empty ↦ absurd (named ((bytes_eq_iff name []).0 empty))
  | inr e ↦ rw (e, not_ip, up) (prefer-IsBest (addrs_of addrs))
]

-- `FQDN` does nothing to its own result, and a dot more at the end of the name makes no difference:
-- what it gives is the name without the dots at its end, and one dot.
pub fqdn_lem :
    (h : Bytes)
    → (fqdn (fqdn h) ≡ fqdn h)
      × (fqdn (h ++ (b'.' ∷ [])) ≡ fqdn h)
      × ((name : Bytes) × (n : ℕ) × (fqdn h ≡ name ++ (b'.' ∷ []))
          × (h ≡ name ++ replicate n b'.')
          × ((front : Bytes) → name ≢ front ++ (b'.' ∷ [])))
unfolding fqdn
fqdn_lem h = (
  ap (λ (t : Bytes). t ++ (b'.' ∷ []))
      (trim_right-append b'.' (trim_right b'.' h) ∙ trim_right_idem b'.' h),
  ap (λ (t : Bytes). t ++ (b'.' ∷ [])) (trim_right-append b'.' h),
  let (n, e) = trim_right_split b'.' h in (trim_right b'.' h, n, refl, e, trim_right_last b'.' h),
)
