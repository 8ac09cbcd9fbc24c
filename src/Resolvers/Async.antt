-- ===== src/Resolvers/Async.antt =====
-- AsyncResolver of hiyori/resolvers/async_.py. aiodns is a package that the source only calls: what
-- `DNSResolver.query` returns or raises for the two types of record is an argument. `ip_address` stands
-- for `ipaddress.ip_address`, with `none` for its ValueError.
use hiyori.Prelude.{
  Equal, add, ℕ, Bool, true, false, ◌||◌, Option, none, some, List, [], ◌∷◌, Str, ℤ, if◌then◌else◌,
}
use hiyori.Outcome.{Outcome, ok, raise}
use hiyori.Exceptions.{Error, unresolvable_host, dns_error, runtime_error, is_runtime}
use hiyori.Resolvers.Base.{ResolvedResult, resolved_result}
use hiyori.Resolvers.Fresh.{lower_ttl, at_least, hosts_first}

-- an item of an answer
pub record HostRecord : Type 0 where
  pub host : Str
  pub ttl : ℤ

-- `aiodns.error.DNSError`
unfoldable pub is_dns_error : Error → Bool
is_dns_error dns_error = true
is_dns_error _ = false

-- The exception of the first task that has one, or the RuntimeError behind the loop.
unfoldable pub first_raised : {B : Type 0} → List (Outcome Error B) → Error
first_raised [] = runtime_error
first_raised (raise e ∷ done) = e
first_raised (ok b ∷ done) = first_raised done

module _ {A : Type 0} ⦃eq : Equal (A × ℤ)⦄ (ip_address : Str → Option A) where
  -- the loop over the items of an answer, which skips ValueError; `results` and `ttl` as they are so far
  unfoldable pub read_items :
      ℤ → List HostRecord → List (A × ℤ) → Option ℤ → List (A × ℤ) × Option ℤ
  unfolding add lower_ttl
  read_items port [] results ttl = (results, ttl)
  read_items port (r ∷ rs) results ttl = elim (ip_address r.host) [
    | none ↦ read_items port rs results ttl
    | some ip ↦ read_items port rs (add results (ip, port)) (some (lower_ttl ttl r.ttl))
  ]

  -- the loop over the tasks that are done, in any order, which skips DNSError
  unfoldable pub read_answers :
      ℤ
      → List (Outcome Error (List HostRecord))
      → List (A × ℤ)
      → Option ℤ
      → Outcome Error (List (A × ℤ) × Option ℤ)
  unfolding read_items is_dns_error
  read_answers port [] results ttl = ok (results, ttl)
  read_answers port (ok items ∷ done) results ttl =
      let (results', ttl') = read_items port items results ttl in
      read_answers port done results' ttl'
  read_answers port (raise e ∷ done) results ttl =
      let rest = read_answers port done results ttl in if is_dns_error e then rest else raise e

  -- from `if ttl is None or …` on
  unfoldable pub answered :
      ℕ
      → Str
      → ℤ
      → ℕ
      → List (Outcome Error (List HostRecord))
      → Outcome Error (List (A × ℤ) × Option ℤ)
      → Outcome Error (ResolvedResult (A × ℤ))
  unfolding at_least first_raised is_runtime is_dns_error resolved_result
  answered now host port min_ttl done (raise e) = raise e
  answered now host port min_ttl done (ok ([], ttl)) =
      let e = first_raised done in
      if is_runtime e || is_dns_error e then raise unresolvable_host else raise e
  answered now host port min_ttl done (ok (r ∷ rs, ttl)) =
      ok (resolved_result now host port (r ∷ rs) (at_least min_ttl ttl))

  -- `lookup_now`: `hosts` is what the resolver of the hosts file answers, if there is one.
  unfoldable pub lookup_now :
      ℕ
      → Str
      → ℤ
      → ℕ
      → Option (Outcome Error (ResolvedResult (A × ℤ)))
      → List (Outcome Error (List HostRecord))
      → Outcome Error (ResolvedResult (A × ℤ))
  unfolding hosts_first read_answers answered
  lookup_now now host port min_ttl hosts done =
      hosts_first hosts (answered now host port min_ttl done (read_answers port done [] none))
