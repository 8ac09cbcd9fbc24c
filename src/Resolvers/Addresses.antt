-- ===== src/Resolvers/Addresses.antt =====
-- What HostsResolver answers for a host.
use hiyori.Prelude.{
  Equal, set_of, ℕ, ◌+◌, ◌<◌, ◌≡◌, refl, ap, ◌∙◌, true, false, Option, none, some, List, [], ◌∷◌,
  ◌++◌, map, append_assoc, Str, ◌=s=◌, =s=_iff, ℤ, pos, if◌then◌else◌, arith, inl, inr, Bool-cases,
}
use hiyori.Outcome.{Outcome, ok, raise}
use hiyori.Exceptions.{Error, unresolvable_host}
use hiyori.Resolvers.Base.{ResolvedResult, resolved_result}
use hiyori.Resolvers.Hosts.{
  HostsResolver, line_entry, entry_of, or_empty, add_entry, add_lines, read_recently, read_hosts,
  unresolved, found, lookup_now,
}
use hiyori.Resolvers.HostsLines.{line_words, words-line}

module _ {A : Type 0} ⦃eq : Equal (A × ℤ)⦄ (ip_address : Str → Option A) where
  -- What a line with these words adds to the addresses of the host: two words, an address and this
  -- host, are an address of it, and any other line is passed over.
  unfoldable pub of_words : Str → List Str → List A
  of_words host (ip_s ∷ name ∷ []) =
      if name =s= host then elim (ip_address ip_s) [ none ↦ [] | some ip ↦ ip ∷ [] ] else []
  of_words host _ = []

  -- The addresses of the lines that name the host, in the order of the lines.
  unfoldable pub addresses : Str → List Str → List A
  unfolding line_words of_words
  addresses host [] = []
  addresses host (line ∷ lines) = of_words host (line_words line) ++ addresses host lines

  abbrev of_entry : Str → Option (A × Str) → List A
  of_entry host none = []
  of_entry host (some (ip, name)) = if name =s= host then ip ∷ [] else []

  abbrev extend : Option (List A) → List A → Option (List A)
  extend o [] = o
  extend none (ip ∷ ips) = some (ip ∷ ips)
  extend (some known) (ip ∷ ips) = some (known ++ ip ∷ ips)

  extend-append :
      (o : Option (List A)) (ip : A) (rest : List A)
      → extend (some (or_empty ip_address o ++ ip ∷ [])) rest ≡ extend o (ip ∷ rest)
  extend-append none ip [] = refl
  extend-append none ip (x ∷ rest) = refl
  extend-append (some known) ip [] = refl
  extend-append (some known) ip (x ∷ rest) = ap some (append_assoc known (ip ∷ []) (x ∷ rest))

  of_entry-entry_of :
      (host : Str) (ws : List Str) → of_entry host (entry_of ip_address ws) ≡ of_words host ws
  unfolding entry_of of_words
  of_entry-entry_of host [] = refl
  of_entry-entry_of host (w ∷ []) = refl
  of_entry-entry_of host (ip_s ∷ name ∷ []) = ground arith
  of_entry-entry_of host (w ∷ x ∷ y ∷ ws) = refl

  of_entry-line :
      (host : Str) (line : Str)
      → of_entry host (line_entry ip_address line) ≡ of_words host (line_words line)
  unfolding line_entry
  of_entry-line host line =
      ap (λ ws. of_entry host (entry_of ip_address ws)) (words-line line)
      ∙ of_entry-entry_of host (line_words line)

  extend-entry :
      (host : Str) (e : Option (A × Str)) (content : Str → Option (List A)) (rest : List A)
      → extend (add_entry ip_address e content host) rest
        ≡ extend (content host) (of_entry host e ++ rest)
  unfolding add_entry
  extend-entry host none content rest = refl
  extend-entry host (some (ip, name)) content rest = elim (Bool-cases (name =s= host)) [
    | inl same ↦
        rw (same, ap content ((=s=_iff name host).0 same)) (extend-append (content host) ip rest)
    | inr other ↦ rw other refl
  ]

  add_lines-extend :
      (host : Str) (lines : List Str) (content : Str → Option (List A))
      → add_lines ip_address lines content host ≡ extend (content host) (addresses host lines)
  unfolding add_lines addresses
  add_lines-extend host [] content = refl
  add_lines-extend host (line ∷ lines) content =
      add_lines-extend host lines (add_entry ip_address (line_entry ip_address line) content)
      ∙ extend-entry host (line_entry ip_address line) content (addresses host lines)
      ∙ ap (λ l. extend (content host) (l ++ addresses host lines)) (of_entry-line host line)

  -- The answer for those addresses: UnresolvableHost if there is none.
  abbrev pub answer : ℕ → Str → ℤ → ℕ → List A → Outcome Error (ResolvedResult (A × ℤ))
  answer now host port min_ttl [] = raise unresolvable_host
  answer now host port min_ttl (ip ∷ ips) =
      ok (resolved_result now host port (set_of (map (λ x. (x, port)) (ip ∷ ips))) (pos min_ttl))

  found-answer :
      (now : ℕ) (host : Str) (port : ℤ) (min_ttl : ℕ) (ips : List A)
      → found ip_address now host port min_ttl (extend none ips) ≡ answer now host port min_ttl ips
  unfolding found unresolved
  found-answer now host port min_ttl [] = refl
  found-answer now host port min_ttl (ip ∷ ips) = refl

  lookup_now-read :
      (now : ℕ) (lines : List Str) (host : Str) (port : ℤ) (s : HostsResolver A)
      → read_recently ip_address s.min_ttl s.last_read now ≡ false
      → lookup_now ip_address now (ok lines) host port s ≡ (
        found ip_address now host port s.min_ttl (add_lines ip_address lines (λ h. none) host),
        record s { hosts_content = add_lines ip_address lines (λ h. none); last_read = some now },
      )
  unfolding lookup_now read_hosts
  lookup_now-read now lines host port s stale = ground arith

  lookup_now-kept :
      (now : ℕ) (file : Outcome Error (List Str)) (host : Str) (port : ℤ) (s : HostsResolver A)
      → read_recently ip_address s.min_ttl s.last_read now ≡ true
      → lookup_now ip_address now file host port s
        ≡ (found ip_address now host port s.min_ttl (s.hosts_content host), s)
  unfolding lookup_now read_hosts
  lookup_now-kept now file host port s recent = ground arith

  recently :
      (min_ttl t now : ℕ) → now < t + min_ttl → read_recently ip_address min_ttl (some t) now ≡ true
  unfolding read_recently
  recently min_ttl t now soon = ground arith

  found-addresses :
      (now : ℕ) (host : Str) (port : ℤ) (min_ttl : ℕ) (lines : List Str)
      → found ip_address now host port min_ttl (add_lines ip_address lines (λ h. none) host)
        ≡ answer now host port min_ttl (addresses host lines)
  found-addresses now host port min_ttl lines =
      ap (found ip_address now host port min_ttl) (add_lines-extend host lines (λ h. none))
      ∙ found-answer now host port min_ttl (addresses host lines)

  module _ (now : ℕ) (lines : List Str) (s : HostsResolver A)
      (stale : read_recently ip_address s.min_ttl s.last_read now ≡ false) where
    -- If the hosts file was not read within `min_ttl` and can be read, the answer is the addresses
    -- of those of its lines that have, before the first number sign or the end of the line, exactly
    -- two words between spaces, an address and this host, each once and in the order of the lines, and
    -- UnresolvableHost if there is no such line.
    pub lookup_now-addresses :
        (host : Str) (port : ℤ)
        → (lookup_now ip_address now (ok lines) host port s).0
          ≡ answer now host port s.min_ttl (addresses host lines)
    lookup_now-addresses host port =
        ap (λ x. x.0) (lookup_now-read now lines host port s stale)
        ∙ found-addresses now host port s.min_ttl lines

    -- For `min_ttl` after a look-up that read the hosts file, every host is looked up in the lines
    -- of then, whatever the file has become.
    pub lookup_now-again :
        (host : Str) (port : ℤ) (now' : ℕ) (file : Outcome Error (List Str)) (host' : Str)
        (port' : ℤ)
        → now' < now + s.min_ttl
        → (lookup_now ip_address now' file host' port'
            (lookup_now ip_address now (ok lines) host port s).1).0
          ≡ answer now' host' port' s.min_ttl (addresses host' lines)
    lookup_now-again host port now' file host' port' soon =
        ap (λ x. (lookup_now ip_address now' file host' port' x.1).0)
          (lookup_now-read now lines host port s stale)
        ∙ ap (λ x. x.0)
            (lookup_now-kept now' file host' port'
              (record s {
                hosts_content = add_lines ip_address lines (λ h. none);
                last_read = some now;
              })
              (recently s.min_ttl now now' soon))
        ∙ found-addresses now' host' port' s.min_ttl lines
