-- ===== src/Ssh/Auth/Cache.antt =====
-- The signer is made once.
use flightsim.Prelude.{◌≡◌, ◌⊎◌, inl, inr, refl, sym, List, [], ◌∷◌, Option, none, some, All}
use flightsim.Ssh.Auth.{KeyLibrary, SignerError, after_signer, after_parse, new_signer_from_key}

-- A signer that one answer gives is what all later answers give.
abbrev pub AreSame : {S E : Type 0} → List (SignerError E ⊎ S) → Type 0
AreSame [] = Unit
AreSame {S = S} (answer ∷ answers) =
    ((s : S) → answer ≡ inr s → All (λ a. a ≡ inr s) answers) × AreSame answers

module _ {S K E : Type 0} where
  -- The answers of calls one after the other, in each of which the library may answer differently.
  unfoldable pub signer_calls : List (KeyLibrary S K E) → Option S → List (SignerError E ⊎ S)
  signer_calls [] cached = []
  signer_calls (lib ∷ libs) cached =
      let (answer, cached') = new_signer_from_key lib cached in answer ∷ signer_calls libs cached'

  cached_calls :
      (libs : List (KeyLibrary S K E)) (s : S)
      → All (λ a. a ≡ inr s) (signer_calls libs (some s)) × AreSame (signer_calls libs (some s))
  unfolding signer_calls new_signer_from_key
  cached_calls [] s = (tt, tt)
  cached_calls (lib ∷ libs) s =
      let (same, later) = cached_calls libs s in
      ((refl, same), ((λ t h. let e : s ≡ t = cc h in rw (sym e) same), later))

  -- Whatever the library answers from call to call, a signer that one call returns is returned by all
  -- later ones, with no error.
  pub signer_calls-AreSame : (libs : List (KeyLibrary S K E)) → AreSame (signer_calls libs none)
  unfolding signer_calls new_signer_from_key
  signer_calls-AreSame [] = tt
  signer_calls-AreSame (lib ∷ libs) = parsed (signer_calls-AreSame libs) lib.parse
    where
      made :
          AreSame (signer_calls libs none)
          → (r : E ⊎ S) → AreSame ((after_signer r).0 ∷ signer_calls libs (after_signer r).1)
      made later (inl e) = ((λ s h. absurd (cc h)), later)
      made later (inr s) =
          let (same, others) = cached_calls libs s in
          ((λ t h. let e : s ≡ t = cc h in rw (sym e) same), others)

      parsed :
          AreSame (signer_calls libs none)
          → (r : E ⊎ K)
          → AreSame (
              (after_parse lib.signer_from r).0
              ∷ signer_calls libs (after_parse lib.signer_from r).1)
      parsed later (inl e) = ((λ s h. absurd (cc h)), later)
      parsed later (inr key) = made later (lib.signer_from key)
