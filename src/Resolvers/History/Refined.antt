-- ===== src/Resolvers/History/Refined.antt =====
-- A call of `lookup` (hiyori/resolvers/base.py) by the log that is before it.
use hiyori.Prelude.{
  ℕ, ◌≤◌, ◌≡◌, refl, sym, ap, ◌∙◌, inl, inr, Bool, Option, none, some, List, [], ◌∷◌, Str, ℤ,
  Bool-cases, Option-cases, ◌++◌,
}
use hiyori.Outcome.{Outcome, ok, Outcome-cases}
use hiyori.Exceptions.{Error}
use hiyori.Resolvers.Base.{
  ResolvedResult, expired, CacheKey, BaseResolver, base_resolver, look_fresh, look_cached,
  look_overridden, lookup,
}
use hiyori.Resolvers.History.{
  Event, asking, failing, alone, happen, happen_all, resolver_after, override_of, answer_of, clock,
  IsTimely, known, found, outcome, call,
}
use hiyori.Resolvers.History.Cached.{
  Held, Held-later, overrides-resolver_after, cache-resolver_after,
}

module _ {R : Type 0} where
  known-Held :
      (now : ℕ) (cached latest : Option (ResolvedResult R))
      → Held now cached latest
      → known now cached ≡ known now latest
  unfolding known
  known-Held now cached latest (inl same) = ap (known now) same
  known-Held now cached latest (inr (r, l, e, gone)) = rw (gone, l, e) refl

  found-Held :
      (now : ℕ) (r cached latest : Option (ResolvedResult R))
      → Held now cached latest
      → found now r cached ≡ found now r latest
  unfolding found
  found-Held now (some r) cached latest h = refl
  found-Held now none cached latest h = known-Held now cached latest h

  -- `lookup` returns what is found at once, or goes on from the state in which the backend is asked.
  abbrev settled :
      (CacheKey → Outcome Error (ResolvedResult R))
      → (BaseResolver R → BaseResolver R)
      → CacheKey
      → Option (ResolvedResult R)
      → BaseResolver R
      → Outcome Error (ResolvedResult R) × BaseResolver R
  settled b o key (some r) s = (ok r, s)
  settled b o key none s = look_fresh b o key s

  lookup-settled :
      (b : CacheKey → Outcome Error (ResolvedResult R)) (o : BaseResolver R → BaseResolver R)
      (now : ℕ) (host : Str) (port : ℤ) (s : BaseResolver R)
      → lookup b o now host port s
        ≡ settled b o
            (host, port)
            (found now (s.overrides (host, port)) (s.cache (host, port)))
            (lookup failing alone now host port s).1
  unfolding lookup look_overridden look_cached found known
  lookup-settled b o now host port s = elim (Option-cases (s.overrides (host, port))) [
    | inr (r, e) ↦ rw e refl
    | inl free ↦ elim (Option-cases (s.cache (host, port))) [
      | inl e ↦ rw (free, e) (unfold look_fresh in refl)
      | inr (c, e) ↦ elim (Bool-cases (expired c now)) [
        | inl old ↦ rw (free, e, old) (unfold look_fresh in refl)
        | inr new ↦ rw (free, e, new) refl
      ]
    ]
  ]

  happen_all-append :
      (late early : List (Event R)) (s : BaseResolver R)
      → happen_all (late ++ early) s ≡ happen_all late (happen_all early s)
  unfolding happen_all
  happen_all-append [] early s = refl
  happen_all-append (e ∷ late) early s = ap (happen e) (happen_all-append late early s)

  settled-call :
      (b : CacheKey → Outcome Error (ResolvedResult R)) (meanwhile : List (Event R)) (now : ℕ)
      (host : Str) (port : ℤ) (f : Option (ResolvedResult R)) (s : BaseResolver R)
      → settled b (happen_all meanwhile) (host, port) f (lookup failing alone now host port s).1 ≡ (
        outcome f (b (host, port)),
        happen_all (call now host port f (b (host, port)) meanwhile) s,
      )
  unfolding happen_all happen
  settled-call b meanwhile now host port (some r) s = refl
  settled-call b meanwhile now host port none s = elim (Outcome-cases (b (host, port))) [
    | inl (r, e) ↦
        rw (look_fresh, e) (rw (happen_all-append meanwhile (asking now host port ∷ []) s) refl)
    | inr (x, e) ↦
        rw (look_fresh, e) (rw (happen_all-append meanwhile (asking now host port ∷ []) s) refl)
  ]

  module _ (min_ttl : ℕ) (respect : Bool) where
    -- A resolver after any log of calls, answers and overrides, in which the clock did not go back, and a
    -- call of `lookup` at a time not before the last of the log, with any events while it waits. It
    -- returns the override of the key by the last event that concerns it, else the last answer for the
    -- key if it has not expired by then, else what the backend answers. It leaves the resolver as it is
    -- after the log and the events of the call: those while it waits where the backend was asked, and
    -- the answer where there is one. A host that is an address already is no exception: it has to be in
    -- the log, or the backend is asked.
    pub lookup-call :
        (b : CacheKey → Outcome Error (ResolvedResult R)) (log meanwhile : List (Event R)) (now : ℕ)
        (host : Str) (port : ℤ)
        → IsTimely log
        → clock log ≤ now
        → (let f = found now (override_of (host, port) log) (answer_of (host, port) log) in
            lookup b (happen_all meanwhile) now host port (resolver_after min_ttl respect log) ≡ (
              outcome f (b (host, port)),
              resolver_after min_ttl respect
                  (call now host port f (b (host, port)) meanwhile ++ log),
            ))
    unfolding found
    lookup-call b log meanwhile now host port timely after =
        let s = resolver_after min_ttl respect log in
        let key : CacheKey = (host, port) in
        let f = found now (override_of key log) (answer_of key log) in
        lookup-settled b (happen_all meanwhile) now host port s
        ∙ ap (λ x. settled b (happen_all meanwhile) key x (lookup failing alone now host port s).1)
            (ap (λ r. found now r (s.cache key)) (overrides-resolver_after min_ttl respect log key)
              ∙ found-Held now (override_of key log) (s.cache key) (answer_of key log) (
                  Held-later (clock log) now after
                    (cache-resolver_after min_ttl respect log key timely)))
        ∙ settled-call b meanwhile now host port f s
        ∙ ap (λ t. (outcome f (b key), t))
            (sym (
              happen_all-append (call now host port f (b key) meanwhile) log
                (base_resolver min_ttl respect)))
