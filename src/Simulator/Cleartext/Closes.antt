-- ===== src/Simulator/Cleartext/Closes.antt =====
-- What `Simulate` of the cleartext simulator leaves behind.
use flightsim.Prelude.{◌≡◌, ◌↔◌, refl, List, [], ◌∷◌, ◌++◌, Option, none, some}
use flightsim.Prelude.Bytes.{Bytes}
use flightsim.Simulator.Connect.{GoError, Action, dialled, wrote, closed, read}
use flightsim.Simulator.Cleartext.{
  CleartextSimulator, Peer, after_cleartext_write, after_cleartext_dial, cleartext_simulate,
}

-- Each connection is closed, as the last thing done, and it has been sent the random data before.
-- There is no error exactly if the dial, the write and the read have none.
pub cleartext_simulate_lem :
    (cps : CleartextSimulator) (peer : Peer) (dst : Bytes)
    → (peer.dial_err ≡ none
        → (middle : List Action) × ((cleartext_simulate cps peer dst).1
            ≡ dialled dst ∷ wrote cps.data_to_send ∷ (middle ++ (closed ∷ []))))
      × (((cleartext_simulate cps peer dst).0 ≡ none)
          ↔ ((peer.dial_err ≡ none) × (peer.write_err ≡ none) × (peer.read_err ≡ none)))
unfolding cleartext_simulate
cleartext_simulate_lem cps peer dst = (λ up. rw up (closes peer.write_err), fine peer.dial_err)
  where
    closes :
        (err : Option GoError)
        → (middle : List Action) × (dialled dst
              ∷ wrote cps.data_to_send
              ∷ (after_cleartext_write peer err).1
            ≡ dialled dst ∷ wrote cps.data_to_send ∷ (middle ++ (closed ∷ [])))
    closes (some e) = ([], refl)
    closes none = (read ∷ [], refl)

    written :
        (err : Option GoError)
        → ((after_cleartext_write peer err).0 ≡ none) ↔ ((err ≡ none) × (peer.read_err ≡ none))
    written (some e) = (λ h. absurd (cc h), λ h. absurd (cc (h.0)))
    written none = (λ h. (refl, h), λ h. h.1)

    fine :
        (err : Option GoError)
        → ((after_cleartext_dial peer cps.data_to_send err).0 ≡ none)
          ↔ ((err ≡ none) × (peer.write_err ≡ none) × (peer.read_err ≡ none))
    fine (some e) = (λ h. absurd (cc h), λ h. absurd (cc (h.0)))
    fine none =
        let w = written peer.write_err in
        (λ h. let (a, b) = w.0 h in (refl, a, b), λ (_, a, b). w.1 (a, b))
