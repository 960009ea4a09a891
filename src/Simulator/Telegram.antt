-- ===== src/Simulator/Telegram.antt =====
-- v2/simulator/telegram-bot.go. The HTTP client and the random generator are parameters.
pub mod Answers
use flightsim.Prelude.{
  ℕ, zero, suc, ◌+◌, ◌/◌, ◌%◌, Bool, true, false, not, ◌||◌, List, [], ◌∷◌, ◌++◌, Option, none,
  some, take, ltb, ◌==◌, if◌then◌else◌,
}
use flightsim.Prelude.Bytes.{Bytes, codes, bytes_eq, itoa}

abbrev pub telegram_url : Bytes
telegram_url = codes "https://api.telegram.org/bot"

abbrev pub telegram_hosts : List Bytes
telegram_hosts = codes "api.telegram.org" ∷ []

-- `hex.EncodeToString`
abbrev pub hex_digit : ℕ → ℕ
hex_digit n = if ltb n 10 then 48 + n else 87 + n

unfoldable pub encode_to_string : Bytes → Bytes
encode_to_string [] = []
encode_to_string (x ∷ xs) = hex_digit (x / 16) ∷ hex_digit (x % 16) ∷ encode_to_string xs

module _ {G : Type 0} (intn : G → ℕ → ℕ × G) (read_random : G → ℕ → Bytes × G) where
  -- The first part of the token: `n` digits.
  unfoldable pub random_digits : ℕ → G → Bytes × G
  random_digits zero g = ([], g)
  random_digits (suc n) g =
      let (k, g') = intn g 10 in let (rest, g'') = random_digits n g' in (itoa k ++ rest, g'')

  -- `generateRandomTelegramBotToken`
  unfoldable pub random_token : G → Bytes
  random_token g =
      let (digits, g') = random_digits 10 g in
      digits ++ (b':' ∷ take 35 (encode_to_string (read_random g' (35 / 2 + 1)).0))

-- What `http.Get` returns: the status code of the response, if there is one, and the error.
pub record Got (E : Type 0) : Type 0 where
  pub status_code : Option ℕ
  pub err : Option E

pub data Ended (E : Type 0) : Type 0 where
  returned : Option E → Ended E
  panicked : Ended E

-- A request in the middle of `Simulate`: `if err != nil || code != 200 { return err }`. Without a
-- response, `response.StatusCode` panics.
abbrev pub after_code : {E : Type 0} → ℕ → Option E → Ended E → Ended E
after_code code (some e) rest = returned (some e)
after_code code none rest = if not (code == 200) then returned none else rest

abbrev pub after_request : {E : Type 0} → Option ℕ → Option E → Ended E → Ended E
after_request none err rest = panicked
after_request (some code) err rest = after_code code err rest

-- The requests for the methods, one after the other, as long as each is answered with 200.
unfoldable pub requests : {E : Type 0} → (Bytes → Got E) → Bytes → List Bytes → Ended E
requests get url [] = returned none
requests get url (method ∷ methods) =
    let got = get (url ++ method) in
    after_request got.status_code got.err (requests get url methods)

abbrev pub bot_methods : List Bytes
bot_methods = codes "getMe" ∷ codes "getMyCommands" ∷ codes "getUpdates" ∷ []

-- `(*TelegramBot).Simulate`: `token` is the value of the environment variable, and `random` the token
-- that is made if it is empty.
unfoldable pub telegram_simulate : {E : Type 0} → (Bytes → Got E) → Bytes → Bytes → Ended E
telegram_simulate get random token =
    let token' = if bytes_eq token [] then random else token in
    requests get (telegram_url ++ (token' ++ codes "/")) bot_methods

-- The text of the line that `Simulate` prints first, if the environment has no token.
unfoldable telegram_warning : Bytes → Option Bytes
telegram_warning token =
    if bytes_eq token []
    then some (
        codes "WARNING: No token in environment variable FLIGHTSIM_TELEGRAM_TOKEN was found. "
        ++ (codes "Using random string instead. This will generate traffic to api.telegram.org "
            ++ (codes "but return an authentication error. However, the traffic should still be "
                ++ codes "captured by your SIEM.")))
    else none
