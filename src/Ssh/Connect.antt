-- ===== src/Ssh/Connect.antt =====
-- `NewClient` and `Teardown` of v2/simulator/ssh/client.go, by what they open and close. The dial and
-- package golang.org/x/crypto/ssh are parameters; the errors of `SetDeadline` and of
-- `RequestSubsystem`, which the code drops, are left out.
pub mod Releases
use flightsim.Prelude.{Bool, true, false, List, [], ◌∷◌, ◌++◌, Option, none, some, ◌⊎◌, inl, inr}
use flightsim.Prelude.Bytes.{Bytes}

pub data Resource : Type 0 where
  net_conn ssh_client session : Resource

pub data Use : Type 0 where
  opens closes : Resource → Use

-- The errors of the calls, and what `ssh.NewClientConn` does with the connection when it fails.
pub record SshLibrary (E : Type 0) : Type 0 where
  pub dial_err : Option E
  pub client_conn_err : Option E
  pub on_failed_handshake : List Use
  pub session_err : Option E
  pub stdin_err : Option E
  pub stdout_err : Option E

pub data ConnectError (E : Type 0) : Type 0 where
  unable_to_connect failed_session failed_io : E → ConnectError E

module _ {E : Type 0} (lib : SshLibrary E) (user : Bytes) where
  abbrev pub after_stdout : Option E → List Use × (ConnectError E ⊎ Bytes)
  after_stdout (some e) = (closes session ∷ closes ssh_client ∷ [], inl (failed_io e))
  after_stdout none = ([], inr user)

  abbrev pub after_stdin : Option E → List Use × (ConnectError E ⊎ Bytes)
  after_stdin (some e) = (closes session ∷ closes ssh_client ∷ [], inl (failed_io e))
  after_stdin none = after_stdout lib.stdout_err

  abbrev pub after_session : Option E → List Use × (ConnectError E ⊎ Bytes)
  after_session (some e) = (closes ssh_client ∷ [], inl (failed_session e))
  after_session none = let (uses, r) = after_stdin lib.stdin_err in (opens session ∷ uses, r)

  abbrev pub after_client_conn : Option E → List Use × (ConnectError E ⊎ Bytes)
  after_client_conn (some e) = (lib.on_failed_handshake, inl (unable_to_connect e))
  after_client_conn none =
      let (uses, r) = after_session lib.session_err in (opens ssh_client ∷ uses, r)

  abbrev pub after_dial : Option E → List Use × (ConnectError E ⊎ Bytes)
  after_dial (some e) = ([], inl (unable_to_connect e))
  after_dial none =
      let (uses, r) = after_client_conn lib.client_conn_err in (opens net_conn ∷ uses, r)

  -- `NewClient`: what it does, and its error or the name of the client.
  unfoldable pub connect_client : List Use × (ConnectError E ⊎ Bytes)
  connect_client = after_dial lib.dial_err

-- `(*Client).Teardown`
abbrev pub teardown : List Use
teardown = closes ssh_client ∷ closes session ∷ []
