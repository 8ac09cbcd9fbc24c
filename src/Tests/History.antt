-- ===== src/Tests/History.antt =====
-- Calls of `lookup` that overlap, on a resolver whose records are numbers.
use hiyori.Prelude.{ℕ, ◌≡◌, ap, true, List, [], ◌∷◌, codes, ◌=s=◌, pos, arith}
use hiyori.Outcome.{Outcome, ok}
use hiyori.Exceptions.{Error}
use hiyori.Resolvers.Base.{
  ResolvedResult, resolved_result, expired, expired_after, CacheKey, same_key, same_port, lookup,
}
use hiyori.Resolvers.History.{
  Event, asking, answering, overriding, removing, happen_all, resolver_after, override_of,
  answer_of, known, found,
}
use hiyori.Resolvers.History.Refined.{lookup-call}

abbrev key : CacheKey
key = (codes "a", pos 80)

abbrev answer : ℕ → ResolvedResult ℕ
answer now = resolved_result now (codes "a") (pos 80) (now ∷ []) (pos 60)

abbrev backend : CacheKey → Outcome Error (ResolvedResult ℕ)
backend _ = ok (answer 72)

-- Two calls overlap, and an override of the key comes and goes.
abbrev log : List (Event ℕ)
log =
    removing (codes "a") (pos 80)
    ∷ answering key (answer 9)
    ∷ overriding 8 (codes "a") (pos 80) 5
    ∷ answering key (answer 7)
    ∷ asking 6 (codes "a") (pos 80)
    ∷ asking 5 (codes "a") (pos 80)
    ∷ []

abbrev meanwhile : List (Event ℕ)
meanwhile = answering (codes "b", pos 80) (answer 71) ∷ []

-- The answer of 9 has expired by 70, and the backend is asked.
lookup-call_example :
    lookup backend (happen_all meanwhile) 70 (codes "a") (pos 80) (resolver_after 60 true log) ≡ (
      ok (answer 72),
      resolver_after 60 true (
          answering key (answer 72)
          ∷ answering (codes "b", pos 80) (answer 71)
          ∷ asking 70 (codes "a") (pos 80)
          ∷ log),
    )
unfolding override_of answer_of known found expired expired_after same_key same_port ◌=s=◌
    resolved_result
lookup-call_example =
    lookup-call 60 true backend log meanwhile 70 (codes "a") (pos 80) (ground arith) (omega arith)

-- By 69 it has not.
test_cached :
    (lookup backend (happen_all meanwhile) 69 (codes "a") (pos 80) (resolver_after 60 true log)).0
    ≡ ok (answer 9)
unfolding override_of answer_of known found expired expired_after same_key same_port ◌=s=◌
    resolved_result
test_cached =
    ap (λ x. x.0)
      (lookup-call 60 true backend log meanwhile 69 (codes "a") (pos 80) (ground arith)
        (omega arith))
