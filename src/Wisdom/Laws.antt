-- ===== src/Wisdom/Laws.antt =====
-- What `Hosts` of v2/wisdom/wisdom.go picks, and how often `query` asks.
use flightsim.Prelude.{
  ℕ, zero, suc, ◌+◌, ◌<◌, ◌≤◌, ◌≡◌, refl, sym, ◌∙◌, ◌⊎◌, inl, inr, false, List, [], ◌∷◌, ◌++◌,
  length, take, leb, if◌then◌else◌, Bool-cases, append_assoc, append-nil, length-append, arith,
}
use flightsim.Prelude.Bytes.{Bytes, bytes_eq}
use flightsim.Cmd.Modules.{HostType}
use flightsim.Wisdom.{
  Item, Response, Get, answered, unreachable, transport, Reply, err, response_body, attempts, query,
  item_host, pick_items,
}

-- The hosts of all items that have one.
unfoldable pub usable : HostType → List Item → List Bytes
usable host_type [] = []
usable host_type (it ∷ items) =
    let host = item_host host_type it in
    let rest = usable host_type items in if bytes_eq host [] then rest else host ∷ rest

pick_items_full :
    (host_type : HostType) (size : ℕ) (items : List Item) (hosts : List Bytes)
    → size ≤ length hosts
    → pick_items host_type size items hosts ≡ hosts
unfolding pick_items
pick_items_full host_type size [] hosts h = refl
pick_items_full host_type size (it ∷ items) hosts h = ground arith

take_nil : (n : ℕ) → take {A = Bytes} n [] ≡ []
take_nil zero = refl
take_nil (suc n) = refl

pick_items-take :
    (host_type : HostType) (size left : ℕ) (items : List Item) (hosts : List Bytes)
    → size ≡ length hosts + left
    → pick_items host_type size items hosts ≡ hosts ++ take left (usable host_type items)
unfolding pick_items usable
pick_items-take host_type size left [] hosts h = rw (take_nil left) (sym (append-nil hosts))
pick_items-take host_type size zero (it ∷ items) hosts h =
    pick_items_full host_type size (it ∷ items) hosts (omega arith) ∙ sym (append-nil hosts)
pick_items-take host_type size (suc left) (it ∷ items) hosts h =
    let host = item_host host_type it in
    let room : leb size (length hosts) ≡ false = ground arith in
    elim (Bool-cases (bytes_eq host [])) [
      | inl empty ↦ rw (room, empty) (pick_items-take host_type size (suc left) items hosts h)
      | inr full ↦
          rw (room, full)
            (pick_items-take host_type size left items (hosts ++ (host ∷ []))
                (omega (arith, length-append hosts (host ∷ [])))
              ∙ append_assoc hosts (host ∷ []) (take left (usable host_type items)))
    ]

-- The loop of `Hosts` gives the first `size` hosts of the items that have one, in the order of the
-- items, or all of these hosts if there are fewer.
pub pick_items-usable :
    (host_type : HostType) (size : ℕ) (items : List Item)
    → pick_items host_type size items [] ≡ take size (usable host_type items)
pick_items-usable host_type size items = pick_items-take host_type size size items [] (omega arith)

-- Attempt `n` gets no answer.
abbrev pub IsLost : {E : Type 0} → (ℕ → Get E) → ℕ → Type 0
IsLost {E = E} get n = (e : E) × (get n ≡ unreachable e)

-- The reply is made from the first of three attempts that is answered, or from the last error.
abbrev pub IsFirstAnswer : {E : Type 0} → (ℕ → Get E) → Reply E Bytes → Type 0
IsFirstAnswer {E = E} get reply =
    ((n : ℕ) × (r : Response E) × (n < 3)
      × ((i : ℕ) → i < n → IsLost get i)
      × (get n ≡ answered r)
      × (reply ≡ response_body r))
    ⊎ ((e : E) × ((i : ℕ) → i < 3 → IsLost get i)
        × (get 2 ≡ unreachable e)
        × (reply ≡ err (transport e)))

Get-cases :
    {E : Type 0} (g : Get E)
    → ((r : Response E) × (g ≡ answered r)) ⊎ ((e : E) × (g ≡ unreachable e))
Get-cases (answered r) = inl (r, refl)
Get-cases (unreachable e) = inr (e, refl)

IsLost-below_one : {E : Type 0} (get : ℕ → Get E) → IsLost get 0 → (i : ℕ) → i < 1 → IsLost get i
IsLost-below_one get a zero h = a
IsLost-below_one get a (suc i) h = absurd (omega arith)

IsLost-below_two :
    {E : Type 0} (get : ℕ → Get E) → IsLost get 0 → IsLost get 1 → (i : ℕ) → i < 2 → IsLost get i
IsLost-below_two get a b zero h = a
IsLost-below_two get a b (suc zero) h = b
IsLost-below_two get a b (suc (suc i)) h = absurd (omega arith)

IsLost-below_three :
    {E : Type 0} (get : ℕ → Get E)
    → IsLost get 0
    → IsLost get 1
    → IsLost get 2
    → (i : ℕ) → i < 3
    → IsLost get i
IsLost-below_three get a b c zero h = a
IsLost-below_three get a b c (suc zero) h = b
IsLost-below_three get a b c (suc (suc zero)) h = c
IsLost-below_three get a b c (suc (suc (suc i))) h = absurd (omega arith)

-- `query` replies with what the first answered attempt of at most three gives, and if none is
-- answered, with the error of the third.
pub query-IsFirstAnswer : {E : Type 0} (get : ℕ → Get E) → IsFirstAnswer get (query get)
unfolding query attempts
query-IsFirstAnswer get = elim (Get-cases (get 0)) [
  | inl (r, e) ↦ inl (0, r, omega arith, λ i h. absurd (omega arith), e, rw e refl)
  | inr a ↦ elim (Get-cases (get 1)) [
    | inl (r, e) ↦ inl (1, r, omega arith, IsLost-below_one get a, e, rw (a.1, e) refl)
    | inr b ↦ elim (Get-cases (get 2)) [
      | inl (r, e) ↦ inl (2, r, omega arith, IsLost-below_two get a b, e, rw (a.1, b.1, e) refl)
      | inr c ↦ inr (c.0, IsLost-below_three get a b c, c.1, rw (a.1, b.1, c.1) refl)
    ]
  ]
]
