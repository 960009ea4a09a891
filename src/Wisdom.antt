-- ===== src/Wisdom.antt =====
-- v2/wisdom/wisdom.go: hosts from the Open Wisdom API. What each request is answered with,
-- `json.Unmarshal` and `rand.Perm` are parameters; the URL is kept as its query's keys and values.
pub mod Laws
use flightsim.Prelude.{
  ℕ, zero, suc, ◌+◌, Bool, true, false, not, ◌||◌, List, [], ◌∷◌, ◌++◌, Option, none, some, ◌⊎◌,
  inl, inr, length, take, leb, ◌==◌, if◌then◌else◌,
}
use flightsim.Prelude.Bytes.{Bytes, codes, bytes_eq, itoa}
use flightsim.Net.{join_host_port}
use flightsim.Cmd.Modules.{HostType, type_dns, type_ip}

-- Go's `int`.
pub data ℤ : Type 0 where
  pos negsuc : ℕ → ℤ

pub record Item : Type 0 where
  pub domain : Bytes
  pub ip : Bytes
  pub port : ℤ
  pub protocol : Bytes

-- An answer: its status code, and its body with the error that ends the reading of it.
pub record Response (E : Type 0) : Type 0 where
  pub status_code : ℕ
  pub body : Bytes
  pub body_err : Option E

pub data Get (E : Type 0) : Type 0 where
  answered : Response E → Get E
  unreachable : E → Get E

-- `said` is the text that begins with `api.open.wisdom.alphasoc.net said`.
pub data WisdomError (E : Type 0) : Type 0 where
  transport read_body parse_body : E → WisdomError E
  said : ℕ → Bytes → WisdomError E

pub data Reply (E A : Type 0) : Type 0 where
  ok : A → Reply E A
  err : WisdomError E → Reply E A

abbrev read_all : {E : Type 0} → Bytes → Option E → Reply E Bytes
read_all b none = ok b
read_all b (some e) = err (read_body e)

-- The end of `query`. The text of an answer with another status is cut at 2048 bytes.
unfoldable pub response_body : {E : Type 0} → Response E → Reply E Bytes
response_body r =
    if not (r.status_code == 200)
    then err (said r.status_code (take 2048 r.body))
    else read_all r.body r.body_err

abbrev answer_or : {E : Type 0} → (E → Reply E Bytes) → Get E → Reply E Bytes
answer_or retry (answered r) = response_body r
answer_or retry (unreachable e) = retry e

-- The attempts of `query` from number `n` on, `left + 1` of them; `get n` is what `client.Get` gives
-- at attempt `n`.
unfoldable pub attempts : {E : Type 0} → (ℕ → Get E) → ℕ → ℕ → Reply E Bytes
attempts get zero n = answer_or (λ e. err (transport e)) (get n)
attempts get (suc left) n = let later = attempts get left (suc n) in answer_or (λ e. later) (get n)

unfoldable pub query : {E : Type 0} → (ℕ → Get E) → Reply E Bytes
unfolding attempts
query get = attempts get 2 0

abbrev family_of : Bytes → List (Bytes × Bytes)
family_of scope = if bytes_eq scope [] then [] else (codes "family", scope) ∷ []

abbrev host_type_text : HostType → Bytes
host_type_text type_dns = codes "dns"
host_type_text type_ip = codes "ip"

-- The keys and values of the query that `Hosts` sends. The field `Family` has no part in it: the code
-- sets it on a copy of the query.
unfoldable pub hosts_query : Bytes → HostType → Bytes → ℕ → List (Bytes × Bytes)
hosts_query category host_type scope size =
    (codes "category", category)
    ∷ (codes "type", host_type_text host_type)
    ∷ (codes "limit", codes "1000")
    ∷ (codes "min", itoa size)
    ∷ family_of scope

-- The port as `Hosts` takes it, if it is positive.
abbrev pub positive : ℤ → Option ℕ
positive (pos zero) = none
positive (pos (suc n)) = some (suc n)
positive (negsuc n) = none

abbrev address : Bytes → Option ℕ → Bytes
address ip none = []
address ip (some port) = join_host_port ip (itoa port)

-- The host of an item; an empty one is left out.
unfoldable pub item_host : HostType → Item → Bytes
unfolding bytes_eq
item_host type_dns it = it.domain
item_host type_ip it =
    if not (bytes_eq it.protocol (codes "tcp")) then [] else address it.ip (positive it.port)

-- The loop over the items in random order, up to `size` hosts.
unfoldable pub pick_items : HostType → ℕ → List Item → List Bytes → List Bytes
pick_items host_type size [] hosts = hosts
pick_items host_type size (it ∷ items) hosts =
    let host = item_host host_type it in
    let rest =
      pick_items host_type size items (if bytes_eq host [] then hosts else hosts ++ (host ∷ [])) in
    if leb size (length hosts) then hosts else rest

abbrev parsed_items :
    {E : Type 0}
    → HostType
    → ℕ
    → (List Item → List Item)
    → Reply E (List Item)
    → Reply E (List Bytes)
parsed_items host_type size shuffle (ok items) = ok (pick_items host_type size (shuffle items) [])
parsed_items host_type size shuffle (err e) = err e

abbrev unmarshalled : {E A : Type 0} → E ⊎ A → Reply E A
unmarshalled (inl e) = err (parse_body e)
unmarshalled (inr a) = ok a

abbrev parsed_body : {E A : Type 0} → (Bytes → E ⊎ A) → Reply E Bytes → Reply E A
parsed_body parse (ok b) = unmarshalled (parse b)
parsed_body parse (err e) = err e

-- `(*WisdomHosts).Hosts`, given the answers to the query that it sends; `shuffle` puts the items into
-- the order of `rand.Perm`.
unfoldable pub wisdom_hosts :
    {E : Type 0}
    → (List (Bytes × Bytes) → ℕ → Get E)
    → (Bytes → E ⊎ List Item)
    → (List Item → List Item)
    → Bytes
    → HostType
    → Bytes
    → ℕ
    → Reply E (List Bytes)
wisdom_hosts get parse shuffle category host_type scope size =
    parsed_items host_type size shuffle
      (parsed_body parse (query (get (hosts_query category host_type scope size))))

-- `Families`
unfoldable pub families :
    {E : Type 0}
    → (List (Bytes × Bytes) → ℕ → Get E)
    → (Bytes → E ⊎ List Bytes)
    → Bytes
    → Reply E (List Bytes)
families get parse category = parsed_body parse (query (get ((codes "category", category) ∷ [])))
