-- ===== src/Resolvers/Dialing.antt =====
-- How a connection gets its protocol from a resolver: `lookup` and then `connect_fastest`, in `get_ready`
-- of hiyori/connection.py. `opens` and `again` are what opening a record gives, with or without TLS, in a
-- race and alone.
use hiyori.Prelude.{ℕ, Bool, Option, none, some, Str, ℤ}
use hiyori.Outcome.{Outcome, ok, raise}
use hiyori.Exceptions.{Error}
use hiyori.Exec.{Exec}
use hiyori.Resolvers.Base.{ResolvedResult, CacheKey, store, BaseResolver, lookup}
use hiyori.Resolvers.Race.{connect_fastest}

module _ {R : Type 0} where
  -- The resolver keeps the very object that `connect_fastest` has changed: in its overrides, or else in
  -- its cache.
  abbrev pub keep_object :
      CacheKey → ResolvedResult R → Option (ResolvedResult R) → BaseResolver R → BaseResolver R
  keep_object key r (some overridden) s = record s { overrides = store key r s.overrides }
  keep_object key r none s = record s { cache = store key r s.cache }

module _ {R P : Type 0} (lookup_now : CacheKey → Outcome Error (ResolvedResult R))
    (others : BaseResolver R → BaseResolver R) (opens : Bool → R → ℕ × Outcome Error P)
    (again : Bool → R → Outcome Error P) where
  -- `connect_fastest` on what `lookup` gave
  unfoldable pub connect_found :
      ℕ
      → CacheKey
      → Bool
      → Outcome Error (ResolvedResult R) × BaseResolver R
      → Outcome Error P × BaseResolver R
  unfolding connect_fastest
  connect_found fuel key tls (raise e, s) = (raise e, s)
  connect_found fuel key tls (ok r, s) =
      let (o, r') = connect_fastest (opens tls) fuel (again tls) r in
      (o, keep_object key r' (s.overrides key) s)

  unfoldable pub dialing : ℕ → ℕ → Str → ℤ → Bool → Exec (BaseResolver R) P
  unfolding lookup connect_found
  dialing fuel now host port tls s =
      connect_found fuel (host, port) tls (lookup lookup_now others now host port s)

  -- what a connection sees of it
  abbrev pub dial : ℕ → ℕ → BaseResolver R → Str → ℤ → Bool → Outcome Error P
  dial fuel now s host port tls = (dialing fuel now host port tls s).0
