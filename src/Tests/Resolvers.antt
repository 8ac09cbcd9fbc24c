-- ===== src/Tests/Resolvers.antt =====
-- The theorems of Resolvers/Cache and Resolvers/Fastest on a resolver whose records are numbers.
use hiyori.Prelude.{
  ℕ, zero, suc, ◌≡◌, refl, true, none, List, [], ◌∷◌, codes, ◌=s=◌, pos, negsuc, arith,
}
use hiyori.Outcome.{Outcome, ok, raise}
use hiyori.Exceptions.{Error, os_error, is_exception}
use hiyori.Resolvers.Base.{
  ResolvedResult, resolved_result, expired, expired_after, CacheKey, same_key, BaseResolver,
  base_resolver, override, lookup,
}
use hiyori.Resolvers.Cache.{
  Op, looking, overriding, removing, run_all, lookup-override, lookup-cached, lookup-expired,
}
use hiyori.Resolvers.Race.{race}
use hiyori.Resolvers.Fastest.{Fastest, race-Fastest}

-- A backend that knows every host, and one that knows none.
abbrev known : CacheKey → Outcome Error (ResolvedResult ℕ)
known (host, port) = ok (resolved_result 10 host port (7 ∷ []) (pos 60))

abbrev unreachable : CacheKey → Outcome Error (ResolvedResult ℕ)
unreachable key = raise os_error

abbrev nothing : BaseResolver ℕ → BaseResolver ℕ
nothing s = s

abbrev resolver : BaseResolver ℕ
resolver = base_resolver 60 true

abbrev calls : List (Op ℕ)
calls =
    looking known nothing 10 (codes "a") (pos 80)
    ∷ overriding 11 (codes "b") (pos 80) 5
    ∷ removing (codes "b") (pos 80)
    ∷ []

lookup-override_example :
    lookup unreachable nothing 99
      (codes "a")
      (pos 80)
      (run_all calls (override 3 (codes "a") (pos 80) 4 resolver))
    ≡ (
      ok (resolved_result 3 (codes "a") (pos 80) (4 ∷ []) (negsuc 0)),
      run_all calls (override 3 (codes "a") (pos 80) 4 resolver),
    )
unfolding same_key ◌=s=◌
lookup-override_example =
    lookup-override 3 (codes "a") (pos 80) 4 resolver calls unreachable nothing 99
      ((λ s. refl), (refl, (refl, tt)))

abbrev first_result : ResolvedResult ℕ
first_result = record {
  host = codes "a";
  port = pos 80;
  results = 7 ∷ [];
  ttl = pos 60;
  resolved_at = 10;
  fastest = none;
}

first_lookup : (lookup known nothing 10 (codes "a") (pos 80) resolver).0 ≡ ok first_result
unfolding lookup base_resolver resolved_result
first_lookup = refl

free : resolver.overrides (codes "a", pos 80) ≡ none
unfolding base_resolver
free = refl

test_lookup_cached :
    lookup unreachable nothing 70
      (codes "a")
      (pos 80)
      (lookup known nothing 10 (codes "a") (pos 80) resolver).1
    ≡ (ok first_result, (lookup known nothing 10 (codes "a") (pos 80) resolver).1)
unfolding expired expired_after
test_lookup_cached =
    lookup-cached known nothing 10 (codes "a") (pos 80) resolver free (λ s. refl) first_lookup
      unreachable nothing 70 refl

test_lookup_expired :
    (lookup unreachable nothing 71
      (codes "a")
      (pos 80)
      (lookup known nothing 10 (codes "a") (pos 80) resolver).1).0
    ≡ raise os_error
unfolding expired expired_after
test_lookup_expired =
    lookup-expired known nothing 10 (codes "a") (pos 80) resolver free (λ s. refl) first_lookup
      unreachable nothing 71 refl

-- The first record is out of reach; the second opens at 5, and the third at 3.
abbrev opens : ℕ → ℕ × Outcome Error ℕ
opens zero = (1, raise os_error)
opens (suc zero) = (5, ok 100)
opens (suc (suc n)) = (3, ok 200)

opens-plain : (r : ℕ) (e : Error) → (opens r).1 ≡ raise e → is_exception e ≡ true
unfolding is_exception
opens-plain zero e h = ground arith
opens-plain (suc zero) e h = cc
opens-plain (suc (suc n)) e h = cc

race-Fastest_example : Fastest opens (0 ∷ 1 ∷ 2 ∷ []) (race opens 4 0 (0 ∷ 1 ∷ 2 ∷ []))
race-Fastest_example = race-Fastest opens opens-plain (0 ∷ 1 ∷ 2 ∷ []) 4 (omega arith)

test_race : race opens 4 0 (0 ∷ 1 ∷ 2 ∷ []) ≡ ok (2, 200)
unfolding race
test_race = refl
