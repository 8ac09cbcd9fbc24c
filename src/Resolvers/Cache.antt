-- ===== src/Resolvers/Cache.antt =====
-- What `lookup` answers from the overrides and from the cache.
use hiyori.Prelude.{
  ℕ, ◌≡◌, refl, ap, ◌∙◌, true, false, Option, none, some, List, [], ◌∷◌, Str, =s=_iff, ℤ, pos,
  negsuc, arith, inl, inr, Bool-cases, Option-cases,
}
use hiyori.Outcome.{Outcome, ok, Outcome-cases}
use hiyori.Exceptions.{Error}
use hiyori.Resolvers.Base.{
  ResolvedResult, resolved_result, expired, same_port, CacheKey, same_key, delete, BaseResolver,
  override, remove_override, look_fresh, look_cached, look_overridden, lookup,
}

pub same_key_refl : (k : CacheKey) → same_key k k ≡ true
unfolding same_key same_port
same_key_refl (h, pos n) = ground (arith, =s=_iff h h)
same_key_refl (h, negsuc n) = ground (arith, =s=_iff h h)

-- Calls of a resolver; `lookup` with the answer of the backend, and what other tasks do meanwhile.
pub data Op (R : Type 0) : Type 0 where
  looking :
      (CacheKey → Outcome Error (ResolvedResult R))
      → (BaseResolver R → BaseResolver R)
      → ℕ
      → Str
      → ℤ
      → Op R
  overriding : ℕ → Str → ℤ → R → Op R
  removing : Str → ℤ → Op R

module _ {R : Type 0} where
  unfoldable pub run : Op R → BaseResolver R → BaseResolver R
  unfolding lookup override remove_override
  run (looking b o now host port) s = (lookup b o now host port s).1
  run (overriding now host port r) s = override now host port r s
  run (removing host port) s = (remove_override host port s).1

  unfoldable pub run_all : List (Op R) → BaseResolver R → BaseResolver R
  unfolding run
  run_all [] s = s
  run_all (op ∷ ops) s = run_all ops (run op s)

  -- No call sets or removes the override of the key.
  abbrev pub Leaves : CacheKey → List (Op R) → Type 0
  Leaves key [] = Unit
  Leaves key (looking b o now host port ∷ ops) =
      ((s : BaseResolver R) → (o s).overrides key ≡ s.overrides key) × Leaves key ops
  Leaves key (overriding now host port r ∷ ops) =
      (same_key (host, port) key ≡ false) × Leaves key ops
  Leaves key (removing host port ∷ ops) = (same_key (host, port) key ≡ false) × Leaves key ops

  pub outcome-fresh :
      (b : CacheKey → Outcome Error (ResolvedResult R)) (o : BaseResolver R → BaseResolver R)
      (k : CacheKey) (s : BaseResolver R)
      → (look_fresh b o k s).0 ≡ b k
  unfolding look_fresh
  outcome-fresh b o k s = ground arith

  module _ (b : CacheKey → Outcome Error (ResolvedResult R)) (o : BaseResolver R → BaseResolver R)
      (key : CacheKey) (quiet : (s : BaseResolver R) → (o s).overrides key ≡ s.overrides key) where
    overrides-fresh :
        (k : CacheKey) (s : BaseResolver R) → (look_fresh b o k s).1.overrides key ≡ s.overrides key
    unfolding look_fresh
    overrides-fresh k s = elim (Outcome-cases (b k)) [
      | inl (r, e) ↦ rw (e, look_fresh) (quiet s)
      | inr (x, e) ↦ rw (e, look_fresh) (quiet s)
    ]

    pub overrides-lookup :
        (now : ℕ) (host : Str) (port : ℤ) (s : BaseResolver R)
        → (lookup b o now host port s).1.overrides key ≡ s.overrides key
    unfolding lookup look_overridden look_cached
    overrides-lookup now host port s = elim (Option-cases (s.overrides (host, port))) [
      | inr (r, e) ↦ rw e refl
      | inl absent ↦ elim (Option-cases (s.cache (host, port))) [
        | inl e ↦ rw (absent, e) (overrides-fresh (host, port) s)
        | inr (c, e) ↦ elim (Bool-cases (expired c now)) [
          | inl old ↦
              rw (absent, e, old)
                (overrides-fresh (host, port) (record s { cache = delete (host, port) s.cache }))
          | inr new ↦ rw (absent, e, new) refl
        ]
      ]
    ]

  overrides-removing :
      (key : CacheKey) (host : Str) (port : ℤ) (s : BaseResolver R)
      → same_key (host, port) key ≡ false
      → (remove_override host port s).1.overrides key ≡ s.overrides key
  unfolding remove_override
  overrides-removing key host port s other = ground arith

  overrides-run_all :
      (key : CacheKey) (ops : List (Op R)) (s : BaseResolver R)
      → Leaves key ops
      → (run_all ops s).overrides key ≡ s.overrides key
  unfolding run_all override
  overrides-run_all key [] s l = refl
  overrides-run_all key (looking b o now host port ∷ ops) s (quiet, l) =
      overrides-run_all key ops _ l ∙ overrides-lookup b o key quiet now host port s
  overrides-run_all key (overriding now host port r ∷ ops) s (other, l) =
      overrides-run_all key ops _ l ∙ rw other refl
  overrides-run_all key (removing host port ∷ ops) s (other, l) =
      overrides-run_all key ops _ l ∙ overrides-removing key host port s other

  overridden :
      (now : ℕ) (host : Str) (port : ℤ) (resolve_to : R) (s : BaseResolver R)
      → (override now host port resolve_to s).overrides (host, port)
        ≡ some (resolved_result now host port (resolve_to ∷ []) (negsuc 0))
  unfolding override
  overridden now host port resolve_to s = rw (same_key_refl (host, port)) refl

  -- An override holds through any calls that neither set nor remove the override of its host and port:
  -- `lookup` then answers with its record, at any time, without asking the backend, and changes nothing.
  pub lookup-override :
      (now : ℕ) (host : Str) (port : ℤ) (resolve_to : R) (s : BaseResolver R) (ops : List (Op R))
      (b : CacheKey → Outcome Error (ResolvedResult R)) (o : BaseResolver R → BaseResolver R)
      (now' : ℕ)
      → Leaves (host, port) ops
      → lookup b o now' host port (run_all ops (override now host port resolve_to s)) ≡ (
        ok (resolved_result now host port (resolve_to ∷ []) (negsuc 0)),
        run_all ops (override now host port resolve_to s),
      )
  unfolding lookup look_overridden
  lookup-override now host port resolve_to s ops b o now' l =
      ap
        (λ x.
          look_overridden b o now' (host, port) x
            (run_all ops (override now host port resolve_to s)))
        (overrides-run_all (host, port) ops (override now host port resolve_to s) l
          ∙ overridden now host port resolve_to s)

  module _ (b : CacheKey → Outcome Error (ResolvedResult R)) (o : BaseResolver R → BaseResolver R)
      (now : ℕ) (host : Str) (port : ℤ) (s : BaseResolver R)
      (free : s.overrides (host, port) ≡ none) where
    pub lookup-free :
        lookup b o now host port s ≡ look_cached b o now (host, port) (s.cache (host, port)) s
    unfolding lookup look_overridden
    lookup-free = rw free refl

    cache-fresh :
        {r : ResolvedResult R} (s' : BaseResolver R)
        → (look_fresh b o (host, port) s').0 ≡ ok r
        → (look_fresh b o (host, port) s').1.cache (host, port) ≡ some r
    unfolding look_fresh
    cache-fresh s' e = ground (arith, same_key_refl (host, port))

    cache-look_cached :
        {r : ResolvedResult R} (c : Option (ResolvedResult R))
        → s.cache (host, port) ≡ c
        → (look_cached b o now (host, port) c s).0 ≡ ok r
        → (look_cached b o now (host, port) c s).1.cache (host, port) ≡ some r
    unfolding look_cached
    cache-look_cached none h e = cache-fresh s e
    cache-look_cached (some c) h e = elim (Bool-cases (expired c now)) [
      | inl old ↦
          rw (old, look_cached)
            (cache-fresh (record s { cache = delete (host, port) s.cache })
              (rw (old, look_cached) at e))
      | inr new ↦ ground (arith, h, e, new)
    ]

    -- What `lookup` returns without an override is what the cache then has.
    pub cache-lookup :
        {r : ResolvedResult R}
        → (lookup b o now host port s).0 ≡ ok r
        → (lookup b o now host port s).1.cache (host, port) ≡ some r
    cache-lookup e =
        rw lookup-free (cache-look_cached (s.cache (host, port)) refl (rw lookup-free at e))

    module _
        (quiet : (s : BaseResolver R) → (o s).overrides (host, port) ≡ s.overrides (host, port))
        {r : ResolvedResult R} (first : (lookup b o now host port s).0 ≡ ok r)
        (b' : CacheKey → Outcome Error (ResolvedResult R)) (o' : BaseResolver R → BaseResolver R)
        (now' : ℕ) where
      again :
          lookup b' o' now' host port (lookup b o now host port s).1
          ≡ look_cached b' o' now' (host, port) (some r) (lookup b o now host port s).1
      unfolding lookup look_overridden
      again =
          ap (λ x. look_overridden b' o' now' (host, port) x (lookup b o now host port s).1)
            (overrides-lookup b o (host, port) quiet now host port s ∙ free)
          ∙ ap (λ x. look_cached b' o' now' (host, port) x (lookup b o now host port s).1)
              (cache-lookup first)

      -- Where a host and a port have no override, and get none while `lookup` asks the backend, a
      -- result that `lookup` has returned is what it returns again until the result expires,
      -- without asking the backend, and nothing changes then.
      pub lookup-cached :
          expired r now' ≡ false
          → lookup b' o' now' host port (lookup b o now host port s).1
            ≡ (ok r, (lookup b o now host port s).1)
      unfolding look_cached
      lookup-cached new = rw (again, new) refl

      -- Where a host and a port have no override, and get none while `lookup` asks the backend,
      -- once a result that `lookup` has returned has expired, `lookup` gives what the backend then
      -- answers.
      pub lookup-expired :
          expired r now' ≡ true
          → (lookup b' o' now' host port (lookup b o now host port s).1).0 ≡ b' (host, port)
      unfolding look_cached look_fresh
      lookup-expired old =
          rw (again, old)
            (outcome-fresh b' o' (host, port)
              (record (lookup b o now host port s).1 {
                cache = delete (host, port) (lookup b o now host port s).1.cache;
              }))
