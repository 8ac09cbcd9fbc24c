-- ===== src/Resolvers/Base.antt =====
-- ResolvedResult and BaseResolver of hiyori/resolvers/base.py, but for `connect_fastest`. `R` is the
-- type of records: an address with a port, or a path. The clock `time.monotonic()` is an argument, in
-- a unit that times to live are whole numbers of.
use hiyori.Prelude.{
  refl, Equal, true, ◌≡◌, ◌↔◌, ap, arith, ℕ, ◌+◌, Bool, false, ◌&&◌, Option, none, some, List, [],
  ◌∷◌, Str, ◌=s=◌, ℤ, pos, negsuc, ltb, ◌==◌, if◌then◌else◌,
}
use hiyori.Outcome.{Outcome, ok, raise}
use hiyori.Exceptions.{Error, key_error}
use hiyori.Exec.{Exec}

pub record ResolvedResult (R : Type 0) : Type 0 where
  pub host : Str
  pub port : ℤ
  -- a set
  pub results : List R
  pub ttl : ℤ
  pub resolved_at : ℕ
  -- `_fastest`
  pub fastest : Option R

-- ResolvedResult(host=…, port=…, results=…, ttl=…), at a time
unfoldable pub resolved_result : {R : Type 0} → ℕ → Str → ℤ → List R → ℤ → ResolvedResult R
resolved_result now host port results ttl = record {
  host = host;
  port = port;
  results = results;
  ttl = ttl;
  resolved_at = now;
  fastest = none;
}

-- `time.monotonic() - self.ttl > self.resolved_at`, if the ttl is not negative
unfoldable pub expired_after : ℕ → ℤ → ℕ → Bool
expired_after resolved_at (negsuc n) now = false
expired_after resolved_at (pos n) now = ltb (resolved_at + n) now

unfoldable pub expired : {R : Type 0} → ResolvedResult R → ℕ → Bool
unfolding expired_after
expired r now = expired_after r.resolved_at r.ttl now

unfoldable pub same_port : ℤ → ℤ → Bool
same_port (pos m) (pos n) = m == n
same_port (negsuc m) (negsuc n) = m == n
same_port _ _ = false

pub same_port_iff : (p q : ℤ) → (same_port p q ≡ true) ↔ (p ≡ q)
unfolding same_port
same_port_iff (pos m) (pos n) = (λ e. ap pos (ground arith), λ e. ground arith)
same_port_iff (negsuc m) (negsuc n) = (λ e. ap negsuc (ground arith), λ e. ground arith)
same_port_iff (pos m) (negsuc n) = (λ e. absurd cc, λ e. absurd cc)
same_port_iff (negsuc m) (pos n) = (λ e. absurd cc, λ e. absurd cc)

pub with_port_iff :
    {A : Type 0} (eq : Equal A) (x y : A × ℤ)
    → ((eq.same x.0 y.0 && same_port x.1 y.1) ≡ true) ↔ (x ≡ y)
with_port_iff eq (a, p) (b, q) = (
  λ e. ground (arith, eq.same_iff a b, same_port_iff p q),
  λ h.
      let same = (eq.same_iff a b).1 (ap (λ x. x.0) h) in
      let port = (same_port_iff p q).1 (ap (λ x. x.1) h) in rw (same, port) refl,
)

-- `==` on pairs of an address and a port
abbrev pub with_port : {A : Type 0} → Equal A → Equal (A × ℤ)
with_port eq = record {
  same = λ x y. eq.same x.0 y.0 && same_port x.1 y.1;
  same_iff = with_port_iff eq;
}

abbrev pub CacheKey : Type 0
CacheKey = Str × ℤ

unfoldable pub same_key : CacheKey → CacheKey → Bool
unfolding same_port
same_key (h, p) (h', p') = (h =s= h') && same_port p p'

-- A dict from keys to results.
abbrev pub Results : Type 0 → Type 0
Results R = CacheKey → Option (ResolvedResult R)

module _ {R : Type 0} where
  -- `d[key] = r` and `del d[key]`
  abbrev pub store : CacheKey → ResolvedResult R → Results R → Results R
  store key r d j = if same_key key j then some r else d j

  abbrev pub delete : CacheKey → Results R → Results R
  delete key d j = if same_key key j then none else d j

pub record BaseResolver (R : Type 0) : Type 0 where
  pub min_ttl : ℕ
  pub respect_remote_ttl : Bool
  pub cache : Results R
  pub overrides : Results R

module _ {R : Type 0} where
  -- BaseResolver(…)
  unfoldable pub base_resolver : ℕ → Bool → BaseResolver R
  base_resolver min_ttl respect_remote_ttl = record {
    min_ttl = min_ttl;
    respect_remote_ttl = respect_remote_ttl;
    cache = λ key. none;
    overrides = λ key. none;
  }

  unfoldable pub override : ℕ → Str → ℤ → R → BaseResolver R → BaseResolver R
  unfolding resolved_result
  override now host port resolve_to s = record s {
    overrides =
        store (host, port) (resolved_result now host port (resolve_to ∷ []) (negsuc 0)) s.overrides;
  }

  unfoldable pub remove_override : Str → ℤ → Exec (BaseResolver R) (Unit {0})
  remove_override host port s = elim (s.overrides (host, port)) [
    | none ↦ (raise key_error, s)
    | some r ↦ (ok tt, record s { overrides = delete (host, port) s.overrides })
  ]

  -- The rest of `lookup`, without a usable result in the cache: `lookup_now` is that of the class, and
  -- other tasks may change the resolver while it runs.
  module _ (lookup_now : CacheKey → Outcome Error (ResolvedResult R))
      (others : BaseResolver R → BaseResolver R) where
    unfoldable pub look_fresh : CacheKey → Exec (BaseResolver R) (ResolvedResult R)
    look_fresh key s = elim (lookup_now key) [
      | raise e ↦ (raise e, others s)
      | ok fresh ↦ (ok fresh, record (others s) { cache = store key fresh (others s).cache })
    ]

    -- for what the cache has
    unfoldable pub look_cached :
        ℕ → CacheKey → Option (ResolvedResult R) → Exec (BaseResolver R) (ResolvedResult R)
    unfolding expired look_fresh
    look_cached now key none s = look_fresh key s
    look_cached now key (some cached) s =
        if expired cached now
        then look_fresh key (record s { cache = delete key s.cache })
        else (ok cached, s)

    -- for what the overrides have
    unfoldable pub look_overridden :
        ℕ → CacheKey → Option (ResolvedResult R) → Exec (BaseResolver R) (ResolvedResult R)
    unfolding look_cached
    look_overridden now key (some overridden) s = (ok overridden, s)
    look_overridden now key none s = look_cached now key (s.cache key) s

    unfoldable pub lookup : ℕ → Str → ℤ → Exec (BaseResolver R) (ResolvedResult R)
    unfolding look_overridden
    lookup now host port s = look_overridden now (host, port) (s.overrides (host, port)) s
