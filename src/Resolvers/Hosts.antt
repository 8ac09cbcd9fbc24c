-- ===== src/Resolvers/Hosts.antt =====
-- HostsResolver of hiyori/resolvers/hosts.py. `A` is the type of addresses, and `ip_address` stands for
-- `ipaddress.ip_address`, with `none` for its ValueError. The file is given by its lines, or by the
-- exception of opening it; one that is raised between two lines is not modelled. The clock counts whole
-- seconds, so that `int(time.monotonic())` is the time.
use hiyori.Prelude.{
  Equal, set_of, add_all, ℕ, ◌+◌, Bool, Option, none, some, List, [], ◌∷◌, ◌++◌, map, Str, ◌=s=◌,
  split_once, ℤ, pos, ltb, if◌then◌else◌,
}
use hiyori.Outcome.{Outcome, ok, raise}
use hiyori.Exceptions.{Error, key_error, os_error, unresolvable_host}
use hiyori.Exec.{Exec}
use hiyori.Decimal.{is_space, rstrip}
use hiyori.Resolvers.Base.{ResolvedResult, resolved_result}

pub record HostsResolver (A : Type 0) : Type 0 where
  pub min_ttl : ℕ
  pub hosts_content : Str → Option (List A)
  -- `none` stands for the -min_ttl of the constructor
  pub last_read : Option ℕ

-- HostsResolver(min_ttl=…)
unfoldable pub hosts_resolver : {A : Type 0} → ℕ → HostsResolver A
hosts_resolver min_ttl = record {
  min_ttl = min_ttl;
  hosts_content = λ host. none;
  last_read = none;
}

-- A letter goes to the first word.
abbrev pub push : ℕ → List Str → List Str
push c [] = (c ∷ []) ∷ []
push c (w ∷ ws) = (c ∷ w) ∷ ws

-- what stands between two spaces
unfoldable pub pieces : Str → List Str
unfolding is_space
pieces [] = [] ∷ []
pieces (c ∷ s) = let rest = pieces s in if is_space c then [] ∷ rest else push c rest

abbrev pub nonempty : List Str → List Str
nonempty [] = []
nonempty ([] ∷ ws) = nonempty ws
nonempty ((c ∷ w) ∷ ws) = (c ∷ w) ∷ nonempty ws

-- `[i.strip() for i in line.split() if i.strip()]`
unfoldable pub words : Str → List Str
unfolding pieces
words s = nonempty (pieces s)

module _ {A : Type 0} ⦃eq : Equal (A × ℤ)⦄ (ip_address : Str → Option A) where
  -- `ip_s, host = …` and `ip = ipaddress.ip_address(ip_s)`
  unfoldable pub entry_of : List Str → Option (A × Str)
  entry_of (ip_s ∷ host ∷ []) = elim (ip_address ip_s) [ none ↦ none | some ip ↦ some (ip, host) ]
  entry_of _ = none

  -- the entry of a line, if the loop does not pass it over
  unfoldable pub line_entry : Str → Option (A × Str)
  unfolding rstrip split_once words entry_of
  line_entry line = entry_of (words (split_once b'#' (rstrip line)).0)

  abbrev pub or_empty : Option (List A) → List A
  or_empty none = []
  or_empty (some ips) = ips

  -- `setdefault(host, [])` and `append(ip)`
  unfoldable pub add_entry : Option (A × Str) → (Str → Option (List A)) → Str → Option (List A)
  add_entry none content = content
  add_entry (some (ip, host)) content =
      λ h. if host =s= h then some (or_empty (content host) ++ ip ∷ []) else content h

  -- the loop over the lines
  unfoldable pub add_lines : List Str → (Str → Option (List A)) → Str → Option (List A)
  unfolding line_entry add_entry
  add_lines [] content = content
  add_lines (line ∷ lines) content = add_lines lines (add_entry (line_entry line) content)

  -- `self._last_read + self._min_ttl > time.monotonic()`
  unfoldable pub read_recently : ℕ → Option ℕ → ℕ → Bool
  read_recently min_ttl none now = ltb now 0
  read_recently min_ttl (some t) now = ltb now (t + min_ttl)

  -- `_read_hosts`
  unfoldable pub read_hosts : ℕ → Outcome Error (List Str) → Exec (HostsResolver A) (Unit {0})
  unfolding read_recently add_lines
  read_hosts now file s =
      if read_recently s.min_ttl s.last_read now then (ok tt, s) else elim file [
        | raise e ↦ (raise e, record s { hosts_content = λ host. none })
        | ok lines ↦ (
          ok tt,
          record s { hosts_content = add_lines lines (λ host. none); last_read = some now },
        )
      ]

  -- the `except` clause
  unfoldable pub unresolved : Error → Error
  unresolved key_error = unresolvable_host
  unresolved os_error = unresolvable_host
  unresolved e = e

  -- `self._hosts_content[host]`, and the result
  unfoldable pub found : ℕ → Str → ℤ → ℕ → Option (List A) → Outcome Error (ResolvedResult (A × ℤ))
  unfolding resolved_result unresolved add_all
  found now host port min_ttl none = raise (unresolved key_error)
  found now host port min_ttl (some ips) =
      ok (resolved_result now host port (set_of (map (λ ip. (ip, port)) ips)) (pos min_ttl))

  unfoldable pub lookup_now :
      ℕ → Outcome Error (List Str) → Str → ℤ → Exec (HostsResolver A) (ResolvedResult (A × ℤ))
  unfolding read_hosts found unresolved
  lookup_now now file host port s =
      let (r, s') = read_hosts now file s in
      elim r [
        | raise e ↦ (raise (unresolved e), s')
        | ok _ ↦ (found now host port s'.min_ttl (s'.hosts_content host), s')
      ]
