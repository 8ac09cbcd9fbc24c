-- ===== src/Connection/Id.antt =====
-- HttpConnectionId of hiyori/connection.py: the host and the port of an authority.
use hiyori.Prelude.{
  ℕ, ◌≡◌, ◌∙◌, ap, Option, none, some, ◌∷◌, ◌++◌, Str, split_once, Lacks, split_once-absent,
  split_once-append, ℤ, pos,
}
use hiyori.Outcome.{Outcome, ok}
use hiyori.Exceptions.{Error}
use hiyori.Decimal.{int, decimal}
use hiyori.Decimal.RoundTrip.{int-decimal}
use hiyori.Messages.{HttpConnectionId, HttpScheme, HttpVersion, http, https}

unfoldable pub default_port : HttpScheme → ℤ
default_port https = pos 443
default_port http = pos 80

unfoldable pub port_of : HttpScheme → Option Str → Outcome Error ℤ
unfolding default_port
port_of scheme none = ok (default_port scheme)
port_of scheme (some text) = int text

unfoldable pub port : HttpConnectionId → Outcome Error ℤ
unfolding port_of
port c = port_of c.scheme (split_once b':' c.authority).1

unfoldable pub hostname : HttpConnectionId → Str
hostname c = (split_once b':' c.authority).0

module _ (version : HttpVersion) where
  abbrev at : HttpScheme → Str → HttpConnectionId
  at scheme authority = record { authority = authority; scheme = scheme; http_version = version }

  -- An authority `host:port`, with a host that has no colon and a printed port number, has that host
  -- and that port, over http and over https; the host alone has port 80 over http and port 443 over
  -- https.
  pub hostname-port :
      (host : Str) (p : ℕ)
      → Lacks b':' host
      → ((scheme : HttpScheme)
          → (hostname (at scheme (host ++ b':' ∷ decimal p)) ≡ host)
            × (port (at scheme (host ++ b':' ∷ decimal p)) ≡ ok (pos p))
            × (hostname (at scheme host) ≡ host))
        × (port (at http host) ≡ ok (pos 80))
        × (port (at https host) ≡ ok (pos 443))
  unfolding port hostname port_of default_port
  hostname-port host p h =
      let given = split_once-append b':' host (decimal p) h in
      let alone = split_once-absent b':' host h in
      (
        (λ scheme. (
          ap (λ r. r.0) given,
          ap (λ r. port_of scheme r.1) given ∙ int-decimal p,
          ap (λ r. r.0) alone,
        )),
        ap (λ r. port_of http r.1) alone,
        ap (λ r. port_of https r.1) alone,
      )
