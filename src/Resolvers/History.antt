-- ===== src/Resolvers/History.antt =====
-- BaseResolver of hiyori/resolvers/base.py as a log of what happened to it: the calls of `lookup`, cut
-- where they wait for `lookup_now`, its answers, and the overrides, of any tasks in any order.
pub mod Cached
pub mod Refined
use hiyori.Prelude.{
  ℕ, ◌≤◌, ◌≡◌, refl, sym, ap, ◌∙◌, ◌⊎◌, inl, inr, Bool, true, false, Option, none, some, List, [],
  ◌∷◌, Str, =s=_iff, ℤ, pos, negsuc, arith, if◌then◌else◌, Bool-cases, Option-cases, ◌++◌,
  append_assoc,
}
use hiyori.Outcome.{Outcome, ok, raise, Outcome-cases}
use hiyori.Exceptions.{Error, os_error}
use hiyori.Resolvers.Base.{
  ResolvedResult, resolved_result, expired_after, expired, same_port, CacheKey, same_key, store,
  delete, BaseResolver, base_resolver, override, remove_override, look_fresh, look_cached,
  look_overridden, lookup,
}
use hiyori.Resolvers.Cache.{overrides-lookup}

pub data Event (R : Type 0) : Type 0 where
  -- `lookup` is called, at a time
  asking : ℕ → Str → ℤ → Event R
  -- `lookup_now` has answered, and `lookup` goes on
  answering : CacheKey → ResolvedResult R → Event R
  overriding : ℕ → Str → ℤ → R → Event R
  removing : Str → ℤ → Event R

module _ {R : Type 0} where
  -- A call of `lookup` up to its wait is one of which `lookup_now` fails at once.
  abbrev pub failing : CacheKey → Outcome Error (ResolvedResult R)
  failing _ = raise os_error

  abbrev pub alone : BaseResolver R → BaseResolver R
  alone s = s

  unfoldable pub happen : Event R → BaseResolver R → BaseResolver R
  unfolding lookup override remove_override
  happen (asking now host port) s = (lookup failing alone now host port s).1
  happen (answering key fresh) s = record s { cache = store key fresh s.cache }
  happen (overriding now host port r) s = override now host port r s
  happen (removing host port) s = (remove_override host port s).1

  -- A log, the last event of which comes first.
  unfoldable pub happen_all : List (Event R) → BaseResolver R → BaseResolver R
  unfolding happen
  happen_all [] s = s
  happen_all (e ∷ log) s = happen e (happen_all log s)

  -- A new resolver, after a log.
  abbrev pub resolver_after : ℕ → Bool → List (Event R) → BaseResolver R
  resolver_after min_ttl respect log = happen_all log (base_resolver min_ttl respect)

  -- The override of a key, by the last event that concerns it.
  unfoldable pub override_of : CacheKey → List (Event R) → Option (ResolvedResult R)
  unfolding same_key resolved_result
  override_of key [] = none
  override_of key (asking now host port ∷ log) = override_of key log
  override_of key (answering k fresh ∷ log) = override_of key log
  override_of key (overriding now host port r ∷ log) =
      let before = override_of key log in
      if same_key (host, port) key
      then some (resolved_result now host port (r ∷ []) (negsuc 0))
      else before
  override_of key (removing host port ∷ log) =
      let before = override_of key log in if same_key (host, port) key then none else before

  -- The last answer for a key.
  unfoldable pub answer_of : CacheKey → List (Event R) → Option (ResolvedResult R)
  unfolding same_key
  answer_of key [] = none
  answer_of key (answering k fresh ∷ log) =
      let before = answer_of key log in if same_key k key then some fresh else before
  answer_of key (asking now host port ∷ log) = answer_of key log
  answer_of key (overriding now host port r ∷ log) = answer_of key log
  answer_of key (removing host port ∷ log) = answer_of key log

  -- The time of the last event that reads the clock.
  abbrev pub clock : List (Event R) → ℕ
  clock [] = 0
  clock (asking now host port ∷ log) = now
  clock (answering key fresh ∷ log) = clock log
  clock (overriding now host port r ∷ log) = now
  clock (removing host port ∷ log) = clock log

  -- The clock does not go back.
  abbrev pub IsTimely : List (Event R) → Type 0
  IsTimely [] = Unit
  IsTimely (asking now host port ∷ log) = (clock log ≤ now) × IsTimely log
  IsTimely (answering key fresh ∷ log) = IsTimely log
  IsTimely (overriding now host port r ∷ log) = (clock log ≤ now) × IsTimely log
  IsTimely (removing host port ∷ log) = IsTimely log

  -- What can be returned at a time without asking the backend: an answer that has not expired, or an
  -- override.
  unfoldable pub known : ℕ → Option (ResolvedResult R) → Option (ResolvedResult R)
  unfolding expired
  known now none = none
  known now (some r) = if expired r now then none else some r

  unfoldable pub found :
      ℕ → Option (ResolvedResult R) → Option (ResolvedResult R) → Option (ResolvedResult R)
  unfolding known
  found now (some r) cached = some r
  found now none cached = known now cached

  -- The outcome of `lookup`, for what is found and for what the backend answers.
  abbrev pub outcome :
      Option (ResolvedResult R)
      → Outcome Error (ResolvedResult R)
      → Outcome Error (ResolvedResult R)
  outcome (some r) fresh = ok r
  outcome none fresh = fresh

  -- The events of a call of `lookup`, with those that happen while it waits.
  abbrev pub call :
      ℕ
      → Str
      → ℤ
      → Option (ResolvedResult R)
      → Outcome Error (ResolvedResult R)
      → List (Event R)
      → List (Event R)
  call now host port (some r) fresh meanwhile = asking now host port ∷ []
  call now host port none (raise e) meanwhile = meanwhile ++ asking now host port ∷ []
  call now host port none (ok r) meanwhile =
      answering (host, port) r ∷ (meanwhile ++ asking now host port ∷ [])
