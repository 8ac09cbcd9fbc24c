-- ===== src/Resolvers/Fresh.antt =====
-- What the resolvers over DNS of hiyori/resolvers (async_.py and https.py) have in common: the hosts
-- file first, and the time to live.
use hiyori.Prelude.{ℕ, Option, none, some, ℤ, pos, ◌<ℤ◌, if◌then◌else◌}
use hiyori.Outcome.{Outcome, ok, raise}
use hiyori.Exceptions.{Error, unresolvable_host}

-- `if ttl is None or ttl > other: ttl = other`
unfoldable pub lower_ttl : Option ℤ → ℤ → ℤ
lower_ttl none other = other
lower_ttl (some ttl) other = if other <ℤ ttl then other else ttl

-- `if ttl is None or ttl < self._min_ttl: ttl = self._min_ttl`
unfoldable pub at_least : ℕ → Option ℤ → ℤ
at_least min_ttl none = pos min_ttl
at_least min_ttl (some ttl) = if ttl <ℤ pos min_ttl then pos min_ttl else ttl

-- `with suppress(UnresolvableHost): return await self._hosts_resolver.lookup(host, port)`, if there is
-- such a resolver, and then the rest of `lookup_now`.
unfoldable pub hosts_first :
    {B : Type 0} → Option (Outcome Error B) → Outcome Error B → Outcome Error B
hosts_first none fresh = fresh
hosts_first (some (ok found)) fresh = ok found
hosts_first (some (raise unresolvable_host)) fresh = fresh
hosts_first (some (raise e)) fresh = raise e
