-- ===== src/Simulator/Irc.antt =====
-- v2/simulator/irc.go. The IRC client of girc, the dial and the random generator are parameters.
pub mod Target
use flightsim.Prelude.{
  ℕ, zero, suc, ◌+◌, ◌-◌, ◌*◌, ◌/◌, ◌^◌, Bool, true, false, not, ◌&&◌, ◌||◌, List, [], ◌∷◌, ◌++◌,
  Option, none, some, ◌⊎◌, inl, inr, length, take, ltb, leb, ◌==◌, if◌then◌else◌,
}
use flightsim.Prelude.Bytes.{Bytes, codes}
use flightsim.Net.{split_host_port}
use flightsim.Wisdom.{ℤ, pos, negsuc}
use flightsim.Simulator.Connect.{
  BindAddr, BoundSimulator, init_bound, GoError, is_soft_error, Dialled,
}
use flightsim.Simulator.Telegram.{encode_to_string}

-- `strconv.Atoi`: the digits, with the number read so far; a sign; the range of `int`.
unfoldable pub digits_of : Bytes → ℕ → Option ℕ
digits_of [] n = some n
digits_of (c ∷ cs) n = if leb 48 c && leb c 57 then digits_of cs (10 * n + (c - 48)) else none

abbrev pub number : Bytes → Option ℕ
number [] = none
number (c ∷ cs) = digits_of (c ∷ cs) 0

abbrev pub non_negative : Option ℕ → Option ℤ
non_negative none = none
non_negative (some n) = if ltb n (2 ^ 63) then some (pos n) else none

abbrev pub negative : Option ℕ → Option ℤ
negative none = none
negative (some zero) = some (pos 0)
negative (some (suc n)) = if ltb n (2 ^ 63) then some (negsuc n) else none

unfoldable pub atoi : Bytes → Option ℤ
atoi [] = none
atoi (c ∷ cs) =
    if c == b'-'
    then negative (number cs)
    else if c == b'+'
    then non_negative (number cs)
    else non_negative (number (c ∷ cs))

pub data IrcError : Type 0 where
  invalid_port : IrcError
  connect_failed : GoError → IrcError

abbrev pub with_port : Bytes → Option ℤ → IrcError ⊎ (Bytes × ℤ)
with_port host none = inl invalid_port
with_port host (some port) = inr (host, port)

abbrev pub target_of : Bytes → Option (Bytes × Bytes) → IrcError ⊎ (Bytes × ℤ)
target_of dst none = inr (dst, pos 6667)
target_of dst (some (host, port_str)) = with_port host (atoi port_str)

-- The server and the port of `Simulate`.
unfoldable pub irc_target : Bytes → IrcError ⊎ (Bytes × ℤ)
irc_target dst = target_of dst (split_host_port dst)

-- `randomHexID`, by the bytes that fill its buffer. The slice `[:n]` of a shorter text panics: `none`.
unfoldable pub random_hex_id : (ℕ → Bytes) → ℕ → Option Bytes
random_hex_id rand_read n =
    let text = encode_to_string (rand_read (n / 2 + 1)) in
    if ltb (length text) n then none else some (take n text)

-- The `girc.Config`
pub record Config : Type 0 where
  pub server : Bytes
  pub port : ℤ
  pub nick : Bytes
  pub user : Bytes
  pub server_pass : Bytes

abbrev pub irc_ended : Option GoError → Option IrcError
irc_ended none = none
irc_ended (some e) = if is_soft_error (some e) [] then none else some (connect_failed e)

-- How a call of `Simulate` ends.
pub data IrcEnd : Type 0 where
  irc_returned : Option IrcError → IrcEnd
  slice_panic : IrcEnd

-- The three random texts, in the order of the fields.
abbrev pub connect_as :
    (Config → Option GoError) → Bytes → ℤ → Option Bytes → Option Bytes → Option Bytes → IrcEnd
connect_as dialer_connect host port (some nick) (some user) (some pass) = irc_returned (
    irc_ended (
      dialer_connect (record {
        server = host;
        port = port;
        nick = codes "nick" ++ nick;
        user = codes "user" ++ user;
        server_pass = codes "password" ++ pass;
      })))
connect_as dialer_connect host port (some nick) (some user) none = slice_panic
connect_as dialer_connect host port (some nick) none pass = slice_panic
connect_as dialer_connect host port none user pass = slice_panic

abbrev pub connect_to : (ℕ → Bytes) → (Config → Option GoError) → IrcError ⊎ (Bytes × ℤ) → IrcEnd
connect_to rand_read dialer_connect (inl e) = irc_returned (some e)
connect_to rand_read dialer_connect (inr (host, port)) =
    connect_as dialer_connect host port (random_hex_id rand_read 5) (random_hex_id rand_read 5)
      (random_hex_id rand_read 8)

-- `(*IRCClient).Simulate`
unfoldable pub irc_simulate : (ℕ → Bytes) → (Config → Option GoError) → Bytes → IrcEnd
irc_simulate rand_read dialer_connect dst = connect_to rand_read dialer_connect (irc_target dst)

-- `(*IRCDialer).Dial`: whether there is a connection, and the error, by the dial and the error of
-- `SetDeadline`.
unfoldable pub irc_dial : Dialled → Option GoError → Dialled
irc_dial d deadline_err = record {
  connected = d.connected;
  err = if d.connected then deadline_err else d.err;
}

-- `(*IRCClient).Init`
abbrev pub irc_init : BindAddr → BoundSimulator → BoundSimulator
irc_init bind s = init_bound bind s
