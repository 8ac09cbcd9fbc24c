-- ===== src/Resolvers/System.antt =====
-- SystemResolver of hiyori/resolvers/system.py, and the choice of resolvers in
-- hiyori/resolvers/__init__.py and in the constructor of HttpsResolver. What `getaddrinfo` of the event
-- loop gives, the text and the port of each address, is an argument.
use hiyori.Prelude.{
  Equal, add, ℕ, Bool, true, false, Option, none, some, List, [], ◌∷◌, Str, ℤ, pos,
}
use hiyori.Outcome.{Outcome, ok, raise}
use hiyori.Exceptions.{Error, unresolvable_host, os_error, value_error}
use hiyori.Resolvers.Base.{ResolvedResult, resolved_result}

module _ {A : Type 0} ⦃eq : Equal (A × ℤ)⦄ (ip_address : Str → Option A) where
  -- the loop over the results; `avail_hosts` as it is so far
  unfoldable pub read_addresses : List (Str × ℤ) → List (A × ℤ) → Outcome Error (List (A × ℤ))
  unfolding add
  read_addresses [] avail_hosts = ok avail_hosts
  read_addresses ((text, port) ∷ rest) avail_hosts = elim (ip_address text) [
    | none ↦ raise value_error
    | some ip ↦ read_addresses rest (add avail_hosts (ip, port))
  ]

  -- the `except` clause
  unfoldable pub unreachable : Error → Error
  unreachable os_error = unresolvable_host
  unreachable e = e

  unfoldable pub lookup_now :
      ℕ → Str → ℤ → ℕ → Outcome Error (List (Str × ℤ)) → Outcome Error (ResolvedResult (A × ℤ))
  unfolding read_addresses unreachable resolved_result
  lookup_now now host port min_ttl (raise e) = raise (unreachable e)
  lookup_now now host port min_ttl (ok results) = elim (read_addresses results []) [
    | raise e ↦ raise (unreachable e)
    | ok found ↦ ok (resolved_result now host port found (pos min_ttl))
  ]

pub data ResolverClass : Type 0 where
  async_class system_class https_class : ResolverClass

-- DefaultResolver: whether aiodns can be imported decides.
unfoldable pub default_class : Bool → ResolverClass
default_class true = async_class
default_class false = system_class

-- HttpsResolver.__init__: the resolver of its own client, where `default` is what DefaultResolver is
-- and `fallback` the argument; the client takes the default for `None`.
unfoldable pub resolver_for : ResolverClass → Option ResolverClass → ResolverClass
resolver_for default (some fallback) = fallback
resolver_for https_class none = system_class
resolver_for default none = default
