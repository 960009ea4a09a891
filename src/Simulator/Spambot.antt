-- ===== src/Simulator/Spambot.antt =====
-- v2/simulator/spambot.go: the mail servers of well-known domains. `lookup_mx` gives the names of the
-- mail servers of a domain; an error of the lookup leaves none.
pub mod Laws
use flightsim.Simulator.Connect.{BindAddr, BoundSimulator, init_bound}
use flightsim.Prelude.{
  ℕ, Bool, true, false, List, [], ◌∷◌, ◌++◌, Option, none, some, length, get_or, map, ltb, ◌==◌,
  if◌then◌else◌,
}
use flightsim.Prelude.Bytes.{Bytes, codes}
use flightsim.Prelude.Sort.{contains}
use flightsim.Net.{join_host_port}
use flightsim.Utils.Net.{fqdn}

-- `domains`
unfoldable pub popular_domains : List Bytes
popular_domains =
    codes "aol.com"
    ∷ codes "att.net"
    ∷ codes "comcast.net"
    ∷ codes "facebook.com"
    ∷ codes "gmail.com"
    ∷ codes "gmx.com"
    ∷ codes "googlemail.com"
    ∷ codes "google.com"
    ∷ codes "hotmail.com"
    ∷ codes "hotmail.co.uk"
    ∷ codes "mac.com"
    ∷ codes "me.com"
    ∷ codes "mail.com"
    ∷ codes "msn.com"
    ∷ codes "live.com"
    ∷ codes "sbcglobal.net"
    ∷ codes "verizon.net"
    ∷ codes "yahoo.com"
    ∷ codes "yahoo.co.uk"
    ∷ codes "email.com"
    ∷ codes "fastmail.fm"
    ∷ codes "games.com"
    ∷ codes "gmx.net"
    ∷ codes "hush.com"
    ∷ codes "hushmail.com"
    ∷ codes "icloud.com"
    ∷ codes "iname.com"
    ∷ codes "inbox.com"
    ∷ codes "lavabit.com"
    ∷ codes "love.com"
    ∷ codes "outlook.com"
    ∷ codes "pobox.com"
    ∷ codes "protonmail.com"
    ∷ codes "rocketmail.com"
    ∷ codes "safe-mail.net"
    ∷ codes "wow.com"
    ∷ codes "ygm.com"
    ∷ codes "ymail.com"
    ∷ codes "zoho.com"
    ∷ codes "yandex.com"
    ∷ codes "bellsouth.net"
    ∷ codes "charter.net"
    ∷ codes "cox.net"
    ∷ codes "earthlink.net"
    ∷ codes "juno.com"
    ∷ codes "btinternet.com"
    ∷ codes "virginmedia.com"
    ∷ codes "blueyonder.co.uk"
    ∷ codes "live.co.uk"
    ∷ codes "ntlworld.com"
    ∷ codes "orange.net"
    ∷ codes "sky.com"
    ∷ codes "talktalk.co.uk"
    ∷ codes "tiscali.co.uk"
    ∷ codes "virgin.net"
    ∷ codes "bt.com"
    ∷ codes "sina.com"
    ∷ codes "qq.com"
    ∷ codes "naver.com"
    ∷ codes "hanmail.net"
    ∷ codes "daum.net"
    ∷ codes "nate.com"
    ∷ codes "yahoo.co.jp"
    ∷ codes "yahoo.co.kr"
    ∷ codes "yahoo.co.id"
    ∷ codes "yahoo.co.in"
    ∷ codes "yahoo.com.sg"
    ∷ codes "yahoo.com.ph"
    ∷ codes "hotmail.fr"
    ∷ codes "live.fr"
    ∷ codes "laposte.net"
    ∷ codes "yahoo.fr"
    ∷ codes "wanadoo.fr"
    ∷ codes "orange.fr"
    ∷ codes "gmx.fr"
    ∷ codes "sfr.fr"
    ∷ codes "neuf.fr"
    ∷ codes "free.fr"
    ∷ codes "gmx.de"
    ∷ codes "hotmail.de"
    ∷ codes "live.de"
    ∷ codes "online.de"
    ∷ codes "t-online.de"
    ∷ codes "web.de"
    ∷ codes "yahoo.de"
    ∷ codes "libero.it"
    ∷ codes "virgilio.it"
    ∷ codes "hotmail.it"
    ∷ codes "aol.it"
    ∷ codes "tiscali.it"
    ∷ codes "alice.it"
    ∷ codes "live.it"
    ∷ codes "yahoo.it"
    ∷ codes "email.it"
    ∷ codes "tin.it"
    ∷ codes "poste.it"
    ∷ codes "teletu.it"
    ∷ codes "mail.ru"
    ∷ codes "rambler.ru"
    ∷ codes "yandex.ru"
    ∷ codes "ya.ru"
    ∷ codes "list.ru"
    ∷ codes "hotmail.be"
    ∷ codes "live.be"
    ∷ codes "skynet.be"
    ∷ codes "voo.be"
    ∷ codes "tvcablenet.be"
    ∷ codes "telenet.be"
    ∷ codes "hotmail.com.ar"
    ∷ codes "live.com.ar"
    ∷ codes "yahoo.com.ar"
    ∷ codes "fibertel.com.ar"
    ∷ codes "speedy.com.ar"
    ∷ codes "arnet.com.ar"
    ∷ codes "yahoo.com.mx"
    ∷ codes "live.com.mx"
    ∷ codes "hotmail.es"
    ∷ codes "prodigy.net.mx"
    ∷ codes "yahoo.com.br"
    ∷ codes "hotmail.com.br"
    ∷ codes "outlook.com.br"
    ∷ codes "uol.com.br"
    ∷ codes "bol.com.br"
    ∷ codes "terra.com.br"
    ∷ codes "ig.com.br"
    ∷ codes "r7.com"
    ∷ codes "zipmail.com.br"
    ∷ codes "globo.com"
    ∷ codes "globomail.com"
    ∷ codes "oi.com.br"
    ∷ []

-- `strings.TrimSuffix(s, c)` for one character
unfoldable pub trim_suffix : ℕ → Bytes → Bytes
trim_suffix c [] = []
trim_suffix c (x ∷ []) = if x == c then [] else x ∷ []
trim_suffix c (x ∷ y ∷ s) = x ∷ trim_suffix c (y ∷ s)

-- The variables of the loop: `hosts`, and the names that `seen` holds.
pub record Found : Type 0 where
  pub hosts : List Bytes
  pub seen : List Bytes

abbrev pub with_host : Bytes → Found → Found
with_host host s =
    if contains host s.seen
    then s
    else record { hosts = s.hosts ++ (join_host_port host (codes "25") ∷ []); seen = host ∷ s.seen }

abbrev pub with_mx : List Bytes → Found → Found
with_mx [] s = s
with_mx (mx ∷ mxs) s = with_host (trim_suffix b'.' mx) s

module _ (lookup_mx : Bytes → List Bytes) where
  -- The loop over the domains in random order
  unfoldable pub spam_loop : ℕ → List Bytes → Found → Found
  spam_loop size [] s = s
  spam_loop size (domain ∷ domains) s =
      let rest = spam_loop size domains (with_mx (lookup_mx (fqdn domain)) s) in
      if ltb (length s.hosts) size then rest else s

  -- `(*Spambot).Hosts`; `order` is the result of `rand.Perm(len(domains))`.
  unfoldable pub spam_hosts : List ℕ → ℕ → List Bytes
  spam_hosts order size =
      (spam_loop size (map (λ k. get_or popular_domains k []) order)
        (record { hosts = []; seen = [] })).hosts

-- `(*Spambot).Init`
abbrev pub spam_init : BindAddr → BoundSimulator → BoundSimulator
spam_init bind s = init_bound bind s
