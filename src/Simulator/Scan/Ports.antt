-- ===== src/Simulator/Scan/Ports.antt =====
-- `Simulate` of the port scan: which ports are tried, and when it stops.
use flightsim.Prelude.{
  ℕ, ◌≡◌, ◌↔◌, ◌⊎◌, inl, inr, refl, ap, ◌∙◌, Bool, true, false, List, [], ◌∷◌, ◌++◌, Option, none,
  some, map, All,
}
use flightsim.Prelude.Bytes.{Bytes}
use flightsim.Simulator.Connect.{
  GoError, Action, dialled, looked_up, closed, wrote, set_deadline, read, waited, Dialled, close_if,
  tcp_simulate,
}
use flightsim.Simulator.Connect.Laws.{IsSoft, refused_text, tcp_simulate_lem}
use flightsim.Simulator.Scan.{scan_ports, port_address, after_port, port_loop, scan_simulate}

-- The addresses dialled, in order.
unfoldable pub dials : List Action → List Bytes
dials [] = []
dials (dialled a ∷ rest) = a ∷ dials rest
dials (looked_up _ ∷ rest) = dials rest
dials (wrote _ ∷ rest) = dials rest
dials (closed ∷ rest) = dials rest
dials (set_deadline ∷ rest) = dials rest
dials (read ∷ rest) = dials rest
dials (waited ∷ rest) = dials rest

dials-append : (a b : List Action) → dials (a ++ b) ≡ dials a ++ dials b
unfolding dials
dials-append [] b = refl
dials-append (dialled x ∷ a) b = ap (◌∷◌ x) (dials-append a b)
dials-append (looked_up _ ∷ a) b = dials-append a b
dials-append (wrote _ ∷ a) b = dials-append a b
dials-append (closed ∷ a) b = dials-append a b
dials-append (set_deadline ∷ a) b = dials-append a b
dials-append (read ∷ a) b = dials-append a b
dials-append (waited ∷ a) b = dials-append a b

dials-tcp_simulate :
    (dial : Bytes → Dialled) (dst : Bytes) → dials (tcp_simulate dial dst).1 ≡ dst ∷ []
unfolding tcp_simulate dials
dials-tcp_simulate dial dst = closes (dial dst).connected
  where
    closes : (b : Bool) → dials (dialled dst ∷ close_if b) ≡ dst ∷ []
    closes true = refl
    closes false = refl

-- The dial of a port gives an error that is not soft.
abbrev pub FailsAt : (Bytes → Dialled) → Bytes → ℕ → GoError → Type 0
FailsAt dial dst port e = ((dial (port_address dst port)).err ≡ some e) × ¬ IsSoft e refused_text

-- All ports tried in order and no error, or an error at the last one tried.
abbrev pub Scans : (Bytes → Dialled) → Bytes → List ℕ → Option GoError × List Action → Type 0
Scans dial dst ports (err, actions) =
    ((err ≡ none)
      × (dials actions ≡ map (port_address dst) ports)
      × All (λ p. (e : GoError) → ¬ FailsAt dial dst p e) ports)
    ⊎ ((front : List ℕ) × (port : ℕ) × (back : List ℕ) × (e : GoError) × (ports
          ≡ front ++ (port ∷ back))
        × (err ≡ some e)
        × FailsAt dial dst port e
        × (dials actions ≡ map (port_address dst) (front ++ (port ∷ [])))
        × All (λ p. (x : GoError) → ¬ FailsAt dial dst p x) front)

after_port-Scans :
    (dial : Bytes → Dialled) (dst : Bytes) (port : ℕ) (ports : List ℕ)
    (t r : Option GoError × List Action)
    → dials t.1 ≡ port_address dst port ∷ []
    → ((e : GoError) → (t.0 ≡ some e) ↔ FailsAt dial dst port e)
    → Scans dial dst ports r
    → Scans dial dst (port ∷ ports) (after_port t r)
unfolding dials
after_port-Scans dial dst port ports (some e, actions) r one fails rest =
    inr ([], port, ports, e, refl, refl, (fails e).0 refl, one, tt)
after_port-Scans dial dst port ports (none, actions) (err, more) one fails
      (inl (fine, all, none_fail)) =
    inl (
      fine,
      dials-append actions (waited ∷ more) ∙ rw (one, all) refl,
      (λ e f. absurd (cc ((fails e).1 f)), none_fail),
    )
after_port-Scans dial dst port ports (none, actions) (err, more) one fails
      (inr (front, p, back, e, parts, failed, f, tried, fine)) =
    inr (
      port ∷ front,
      p,
      back,
      e,
      ap (◌∷◌ port) parts,
      failed,
      f,
      dials-append actions (waited ∷ more) ∙ rw (one, tried) refl,
      (λ x g. absurd (cc ((fails x).1 g)), fine),
    )

port_loop-Scans :
    (dial : Bytes → Dialled) (dst : Bytes) (ports : List ℕ)
    → Scans dial dst ports (port_loop dial dst ports)
unfolding port_loop dials
port_loop-Scans dial dst [] = inl (refl, refl, tt)
port_loop-Scans dial dst (port ∷ ports) =
    let address = port_address dst port in
    after_port-Scans dial dst port ports (tcp_simulate dial address) (port_loop dial dst ports)
      (dials-tcp_simulate dial address) (λ e. (tcp_simulate_lem dial address e).0)
      (port_loop-Scans dial dst ports)

-- `Simulate` of the port scan dials the ports one after the other, in their order. It stops at the
-- first dial whose error is not soft and reports that error, or it dials all of them and reports none.
pub scan_simulate-Scans :
    (dial : Bytes → Dialled) (dst : Bytes) → Scans dial dst scan_ports (scan_simulate dial dst)
unfolding scan_simulate
scan_simulate-Scans dial dst = port_loop-Scans dial dst scan_ports
