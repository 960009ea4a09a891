-- ===== src/Ssh/Auth.antt =====
-- v2/simulator/ssh/auth.go. The parsing of the private key and the making of a signer, by package
-- golang.org/x/crypto/ssh, are parameters: what they answer in a call.
pub mod Cache
use flightsim.Prelude.{Option, none, some, ◌⊎◌, inl, inr}

pub record KeyLibrary (S K E : Type 0) : Type 0 where
  pub parse : E ⊎ K
  pub signer_from : K → E ⊎ S

pub data SignerError (E : Type 0) : Type 0 where
  parse_failed signer_failed : E → SignerError E

-- Each step gives the answer of the call and the value of `gSigner` behind it.
abbrev pub after_signer : {S E : Type 0} → E ⊎ S → (SignerError E ⊎ S) × Option S
after_signer (inl e) = (inl (signer_failed e), none)
after_signer (inr signer) = (inr signer, some signer)

abbrev pub after_parse : {S K E : Type 0} → (K → E ⊎ S) → E ⊎ K → (SignerError E ⊎ S) × Option S
after_parse signer_from (inl e) = (inl (parse_failed e), none)
after_parse signer_from (inr key) = after_signer (signer_from key)

-- `NewSignerFromKey`, by the value of `gSigner`.
unfoldable pub new_signer_from_key :
    {S K E : Type 0} → KeyLibrary S K E → Option S → (SignerError E ⊎ S) × Option S
new_signer_from_key lib (some signer) = (inr signer, some signer)
new_signer_from_key lib none = after_parse lib.signer_from lib.parse
