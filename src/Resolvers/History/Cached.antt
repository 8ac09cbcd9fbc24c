-- ===== src/Resolvers/History/Cached.antt =====
-- What the overrides and the cache of a BaseResolver (hiyori/resolvers/base.py) have after a log.
use hiyori.Prelude.{
  ℕ, ◌≤◌, ◌≡◌, refl, sym, ap, ◌∙◌, ◌⊎◌, inl, inr, Bool, true, Option, none, some, List, [], ◌∷◌,
  Str, =s=_iff, ℤ, pos, negsuc, arith, if◌then◌else◌, Bool-cases, Option-cases,
}
use hiyori.Resolvers.Base.{
  ResolvedResult, expired_after, expired, same_port, CacheKey, same_key, BaseResolver,
  base_resolver, override, remove_override, look_fresh, look_cached, look_overridden, lookup,
}
use hiyori.Resolvers.Cache.{overrides-lookup}
use hiyori.Resolvers.History.{
  Event, asking, answering, overriding, removing, failing, alone, happen, happen_all,
  resolver_after, override_of, answer_of, clock, IsTimely,
}

same_port-eq : (p q : ℤ) → same_port p q ≡ true → p ≡ q
unfolding same_port
same_port-eq (pos m) (pos n) e = ap pos (ground arith)
same_port-eq (negsuc m) (negsuc n) e = ap negsuc (ground arith)
same_port-eq (pos m) (negsuc n) e = absurd cc
same_port-eq (negsuc m) (pos n) e = absurd cc

same_key-eq : (k j : CacheKey) → same_key k j ≡ true → k ≡ j
unfolding same_key
same_key-eq (h, p) (h', p') e = ground (arith, =s=_iff h h', same_port-eq p p')

expired_after_mono :
    (resolved_at : ℕ) (ttl : ℤ) (now now' : ℕ)
    → now ≤ now'
    → expired_after resolved_at ttl now ≡ true
    → expired_after resolved_at ttl now' ≡ true
unfolding expired_after
expired_after_mono resolved_at (pos n) now now' le e = ground arith
expired_after_mono resolved_at (negsuc n) now now' le e = absurd cc

module _ {R : Type 0} where
  expired_mono :
      (r : ResolvedResult R) (now now' : ℕ)
      → now ≤ now'
      → expired r now ≡ true
      → expired r now' ≡ true
  unfolding expired
  expired_mono r now now' le e = expired_after_mono r.resolved_at r.ttl now now' le e

  -- What the cache has is the last answer, or this has expired and the cache has nothing.
  abbrev pub Held : ℕ → Option (ResolvedResult R) → Option (ResolvedResult R) → Type 0
  Held now cached latest =
      (cached ≡ latest)
      ⊎ ((r : ResolvedResult R) × (latest ≡ some r) × (expired r now ≡ true) × (cached ≡ none))

  pub Held-later :
      {cached latest : Option (ResolvedResult R)} (now now' : ℕ)
      → now ≤ now'
      → Held now cached latest
      → Held now' cached latest
  Held-later now now' le (inl same) = inl same
  Held-later now now' le (inr (r, l, e, c)) = inr (r, l, expired_mono r now now' le e, c)

  -- A call leaves what the cache has for a key, or removes it when it has expired.
  cache-asking :
      (now : ℕ) (host : Str) (port : ℤ) (s : BaseResolver R) (key : CacheKey)
      → Held now ((lookup failing alone now host port s).1.cache key) (s.cache key)
  unfolding lookup look_overridden look_cached look_fresh
  cache-asking now host port s key = elim (Option-cases (s.overrides (host, port))) [
    | inr (r, e) ↦ inl (rw e refl)
    | inl free ↦ elim (Option-cases (s.cache (host, port))) [
      | inl e ↦ inl (rw (free, e) refl)
      | inr (c, e) ↦ elim (Bool-cases (expired c now)) [
        | inr new ↦ inl (rw (free, e, new) refl)
        | inl old ↦ elim (Bool-cases (same_key (host, port) key)) [
          | inl same ↦ inr (
            c,
            ap s.cache (sym (same_key-eq (host, port) key same)) ∙ e,
            old,
            rw (free, e, old, same) refl,
          )
          | inr other ↦ inl (rw (free, e, old, other) refl)
        ]
      ]
    ]
  ]

  Held-trans :
      {a b c : Option (ResolvedResult R)} (now : ℕ) → Held now a b → Held now b c → Held now a c
  Held-trans now (inl same) (inl same') = inl (same ∙ same')
  Held-trans now (inl same) (inr (r, l, e, gone)) = inr (r, l, e, same ∙ gone)
  Held-trans now (inr (r, l, e, gone)) (inl same) = inr (r, sym same ∙ l, e, gone)
  Held-trans now (inr (r, l, e, gone)) (inr (r', l', e', _)) = inr (r', l', e', gone)

  overrides-removed :
      (host : Str) (port : ℤ) (s : BaseResolver R) (key : CacheKey)
      → (remove_override host port s).1.overrides key
        ≡ (if same_key (host, port) key then none else s.overrides key)
  unfolding remove_override
  overrides-removed host port s key = elim (Option-cases (s.overrides (host, port))) [
    | inr (r, e) ↦ rw (remove_override, e) refl
    | inl free ↦ elim (Bool-cases (same_key (host, port) key)) [
      | inl same ↦
          rw (remove_override, free, same)
            (ap s.overrides (sym (same_key-eq (host, port) key same)) ∙ free)
      | inr other ↦ rw (remove_override, free, other) refl
    ]
  ]

  cache-removed :
      (host : Str) (port : ℤ) (s : BaseResolver R) → (remove_override host port s).1.cache ≡ s.cache
  unfolding remove_override
  cache-removed host port s = elim (Option-cases (s.overrides (host, port))) [
    | inr (r, e) ↦ rw (remove_override, e) refl
    | inl free ↦ rw (remove_override, free) refl
  ]

  module _ (min_ttl : ℕ) (respect : Bool) where
    pub overrides-resolver_after :
        (log : List (Event R)) (key : CacheKey)
        → (resolver_after min_ttl respect log).overrides key ≡ override_of key log
    unfolding happen_all happen base_resolver override_of override
    overrides-resolver_after [] key = refl
    overrides-resolver_after (asking now host port ∷ log) key =
        overrides-lookup failing alone key (λ s. refl) now host port
          (resolver_after min_ttl respect log)
        ∙ overrides-resolver_after log key
    overrides-resolver_after (answering k fresh ∷ log) key = overrides-resolver_after log key
    overrides-resolver_after (overriding now host port r ∷ log) key =
        rw (overrides-resolver_after log key) refl
    overrides-resolver_after (removing host port ∷ log) key =
        overrides-removed host port (resolver_after min_ttl respect log) key
        ∙ rw (overrides-resolver_after log key) refl

    pub cache-resolver_after :
        (log : List (Event R)) (key : CacheKey)
        → IsTimely log
        → Held (clock log) ((resolver_after min_ttl respect log).cache key) (answer_of key log)
    unfolding happen_all happen base_resolver answer_of override
    cache-resolver_after [] key t = inl refl
    cache-resolver_after (asking now host port ∷ log) key (le, t) =
        Held-trans now (cache-asking now host port (resolver_after min_ttl respect log) key)
          (Held-later (clock log) now le (cache-resolver_after log key t))
    cache-resolver_after (answering k fresh ∷ log) key t = elim (Bool-cases (same_key k key)) [
      | inl same ↦ inl (rw same refl)
      | inr other ↦ rw other (cache-resolver_after log key t)
    ]
    cache-resolver_after (overriding now host port r ∷ log) key (le, t) =
        Held-later (clock log) now le (cache-resolver_after log key t)
    cache-resolver_after (removing host port ∷ log) key t =
        rw (cache-removed host port (resolver_after min_ttl respect log))
          (cache-resolver_after log key t)
