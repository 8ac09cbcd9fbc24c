-- ===== src/Resolvers/DnsClient.antt =====
-- HttpsResolver of hiyori/resolvers/https.py as an object: the request of a query through its own
-- client, and `lookup_now`. The deadline of that client, 15 seconds, is an exception that the exchange
-- may raise.
use hiyori.Prelude.{
  Equal, ℕ, Bool, true, false, ◌||◌, Option, none, some, List, [], ◌∷◌, Str, codes, ◌=s=◌, ℤ,
  if◌then◌else◌,
}
use hiyori.Outcome.{Outcome, raise}
use hiyori.Exceptions.{Error, unresolvable_host, assertion_error}
use hiyori.Headers.{HeaderDict}
use hiyori.Bodies.{RequestBody}
use hiyori.Body.{Body}
use hiyori.Messages.{Response}
use hiyori.Connection.Http.{HttpProtocol}
use hiyori.Connection.Send.{Exchange}
use hiyori.Client.Pool.{HttpClient}
use hiyori.Client.Errors.{ClientError}
use hiyori.Client.Functions.{default_client}
use hiyori.Client.Fetch.{Outside}
use hiyori.Client.Verbs.{Keywords, get}
use hiyori.Resolvers.Base.{ResolvedResult, BaseResolver, base_resolver}
use hiyori.Resolvers.Hosts.{HostsResolver, hosts_resolver}
use hiyori.Resolvers.Json.{Json}
use hiyori.Resolvers.Https.{read_response, resolve}
use hiyori.Resolvers.System.{ResolverClass, resolver_for}

pub record HttpsResolver (P A : Type 0) : Type 0 where
  pub base : BaseResolver (A × ℤ)
  pub hosts : Option (HostsResolver A)
  pub dns_url : Str
  pub client : HttpClient P
  -- the resolver of that client
  pub client_resolver : ResolverClass

-- HttpsResolver(…), where `default` is what DefaultResolver is
unfoldable pub https_resolver :
    {P A : Type 0}
    → ResolverClass
    → ℕ
    → Bool
    → Bool
    → Option ResolverClass
    → Str
    → HttpsResolver P A
unfolding base_resolver hosts_resolver default_client resolver_for
https_resolver default min_ttl respect_remote_ttl respect_hosts_file fallback dns_url = record {
  base = base_resolver min_ttl respect_remote_ttl;
  hosts = if respect_hosts_file then some (hosts_resolver min_ttl) else none;
  dns_url = dns_url;
  client = default_client;
  client_resolver = resolver_for default fallback;
}

-- the keyword arguments that `get` has by default
unfoldable pub get_defaults : Keywords
get_defaults = record {
  options = record { read_response_body = true; max_body_size = none; raise_error = none };
  follow_redirection = false;
  max_redirects = none;
}

-- The hosts file has an answer, or an exception other than UnresolvableHost.
abbrev pub is_settled : {B : Type 0} → Option (Outcome Error B) → Bool
is_settled none = false
is_settled (some (raise unresolvable_host)) = false
is_settled (some r) = true

abbrev pub in_order : {B : Type 0} → Bool → B → B → List B
in_order false first second = first ∷ second ∷ []
in_order true first second = second ∷ first ∷ []

module _ {P H C : Type 0} ⦃d : HeaderDict H⦄ (http_protocol : HttpProtocol P H)
    (class : RequestBody C) (outside : Outside) where
  -- the request of `query`, on the exchanges of its call of `get` and what other tasks do to the client
  -- meanwhile
  unfoldable pub request_records :
      (ℕ
        → Bool
        → ℕ
        → Exchange P H (Body H C)
        → Outcome Error (Response H) × Exchange P H (Body H C))
      → (ℕ → HttpClient P → HttpClient P)
      → Str
      → Str
      → Str
      → HttpClient P
      → Outcome (ClientError H) (Response H) × HttpClient P
  unfolding get get_defaults
  request_records exchange others dns_url host record_type c =
      get http_protocol class outside exchange others dns_url
        ((codes "name", host) ∷ (codes "type", record_type) ∷ [])
        ((codes "accept", codes "application/dns-json") ∷ []) get_defaults c

module _ {P H C A : Type 0} ⦃d : HeaderDict H⦄ ⦃eq : Equal (A × ℤ)⦄
    (http_protocol : HttpProtocol P H) (class : RequestBody C) (outside : Outside)
    (ip_address : Json → Option A) (loads : Str → Outcome Error Json) where
  -- `query`
  unfoldable pub query :
      (ℕ
        → Bool
        → ℕ
        → Exchange P H (Body H C)
        → Outcome Error (Response H) × Exchange P H (Body H C))
      → (ℕ → HttpClient P → HttpClient P)
      → Str
      → Str
      → ℤ
      → Str
      → HttpClient P
      → Outcome Error (List (A × ℤ) × ℤ) × HttpClient P
  unfolding request_records read_response
  query exchange others dns_url host port record_type c =
      if record_type =s= codes "A" || record_type =s= codes "AAAA"
      then (let (answered, c') =
            request_records http_protocol class outside exchange others dns_url host record_type
              c in
          (read_response ip_address loads port answered, c'))
      else (raise assertion_error, c)

  -- `lookup_now`: `hosts` is what the resolver of the hosts file answers, if there is one, and `swapped`
  -- whether the set of finished tasks gives the second first. The two queries are tasks at the same
  -- time on one client: each starts on the client as it finds it, `start` and `start'`, and what the other
  -- does to it meanwhile is among what `others` and `others'` do.
  unfoldable pub lookup_now :
      (ℕ
        → Bool
        → ℕ
        → Exchange P H (Body H C)
        → Outcome Error (Response H) × Exchange P H (Body H C))
      → (ℕ → HttpClient P → HttpClient P)
      → HttpClient P
      → (ℕ
          → Bool
          → ℕ
          → Exchange P H (Body H C)
          → Outcome Error (Response H) × Exchange P H (Body H C))
      → (ℕ → HttpClient P → HttpClient P)
      → HttpClient P
      → Bool
      → ℕ
      → Str
      → ℤ
      → Option (Outcome Error (ResolvedResult (A × ℤ)))
      → HttpsResolver P A
      → Outcome Error (ResolvedResult (A × ℤ))
  unfolding query resolve
  lookup_now exchange others start exchange' others' start' swapped now host port hosts s =
      let first = (query exchange others s.dns_url host port (codes "A") start).0 in
      let second = (query exchange' others' s.dns_url host port (codes "AAAA") start').0 in
      let done = if is_settled hosts then [] else in_order swapped first second in
      resolve now host port s.base.min_ttl hosts done
