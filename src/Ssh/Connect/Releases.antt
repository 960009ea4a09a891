-- ===== src/Ssh/Connect/Releases.antt =====
-- What `NewClient` leaves open.
use flightsim.Prelude.{
  ◌≡◌, ◌⊎◌, inl, inr, refl, Bool, true, false, List, [], ◌∷◌, ◌++◌, Option, none, some,
}
use flightsim.Prelude.Bytes.{Bytes}
use flightsim.Ssh.Connect.{
  net_conn, ssh_client, session, Use, opens, closes, SshLibrary, ConnectError, after_stdout,
  after_stdin, after_session, after_client_conn, after_dial, connect_client, teardown,
}

-- Whether the connection, the client and the session are open.
pub record Held : Type 0 where
  pub conn_open : Bool
  pub client_open : Bool
  pub session_open : Bool

abbrev pub all_closed : Held
all_closed = record { conn_open = false; client_open = false; session_open = false }

abbrev pub only_conn : Held
only_conn = record { conn_open = true; client_open = false; session_open = false }

-- To close the client closes its connection.
abbrev pub used : Use → Held → Held
used (opens net_conn) o = record o { conn_open = true }
used (opens ssh_client) o = record o { client_open = true }
used (opens session) o = record o { session_open = true }
used (closes net_conn) o = record o { conn_open = false }
used (closes ssh_client) o = record o { conn_open = false; client_open = false }
used (closes session) o = record o { session_open = false }

unfoldable pub open_after : List Use → Held → Held
open_after [] o = o
open_after (u ∷ us) o = open_after us (used u o)

-- After an error all is closed, and else all is closed by a teardown.
abbrev pub Releases : {E : Type 0} → Held → List Use × (ConnectError E ⊎ Bytes) → Type 0
Releases before (uses, inl e) = open_after uses before ≡ all_closed
Releases before (uses, inr name) =
    (open_after uses before ≡ record { conn_open = true; client_open = true; session_open = true })
    × (open_after (uses ++ teardown) before ≡ all_closed)

module _ {E : Type 0} (lib : SshLibrary E) (user : Bytes)
    (handshake : open_after lib.on_failed_handshake only_conn ≡ all_closed) where
  after_stdout-Releases :
      (err : Option E)
      → Releases
          (record { conn_open = true; client_open = true; session_open = true })
          (after_stdout lib user err)
  unfolding open_after
  after_stdout-Releases (some e) = refl
  after_stdout-Releases none = (refl, refl)

  after_stdin-Releases :
      (err : Option E)
      → Releases
          (record { conn_open = true; client_open = true; session_open = true })
          (after_stdin lib user err)
  unfolding open_after
  after_stdin-Releases (some e) = refl
  after_stdin-Releases none = after_stdout-Releases lib.stdout_err

  step-Releases :
      (u : Use) (before : Held) (r : List Use × (ConnectError E ⊎ Bytes))
      → Releases (used u before) r
      → Releases before (u ∷ r.0, r.1)
  unfolding open_after
  step-Releases u before (uses, inl e) h = h
  step-Releases u before (uses, inr name) h = h

  after_session-Releases :
      (err : Option E)
      → Releases
          (record { conn_open = true; client_open = true; session_open = false })
          (after_session lib user err)
  unfolding open_after
  after_session-Releases (some e) = refl
  after_session-Releases none =
      step-Releases (opens session)
        (record { conn_open = true; client_open = true; session_open = false })
        (after_stdin lib user lib.stdin_err) (after_stdin-Releases lib.stdin_err)

  after_client_conn-Releases :
      (err : Option E) → Releases only_conn (after_client_conn lib user err)
  after_client_conn-Releases (some e) = handshake
  after_client_conn-Releases none =
      step-Releases (opens ssh_client) only_conn (after_session lib user lib.session_err)
        (after_session-Releases lib.session_err)

  after_dial-Releases : (err : Option E) → Releases all_closed (after_dial lib user err)
  unfolding open_after
  after_dial-Releases (some e) = refl
  after_dial-Releases none =
      step-Releases (opens net_conn) all_closed (after_client_conn lib user lib.client_conn_err)
        (after_client_conn-Releases lib.client_conn_err)

  -- If `NewClient` fails, whichever call of it fails, it leaves neither the connection nor the client
  -- nor the session open. If it succeeds all three are open, and `Teardown` closes them. The library
  -- closes the connection of a failed handshake.
  pub connect_client-Releases : Releases all_closed (connect_client lib user)
  unfolding connect_client
  connect_client-Releases = after_dial-Releases lib.dial_err
