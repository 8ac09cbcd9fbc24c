-- ===== src/Resolvers/Answers.antt =====
-- What AsyncResolver answers from the queries.
use hiyori.Prelude.{
  Equal, add, add_all, set_of, add_all-append, ℕ, leb, ◌≡◌, refl, ap, ◌∙◌, true, Option-cases,
  Option, none, some, List, [], ◌∷◌, ◌++◌, Str, ℤ, pos, negsuc, ◌<ℤ◌, ◌||◌, if◌then◌else◌, arith,
  inl, inr,
}
use hiyori.Outcome.{Outcome, ok, raise}
use hiyori.Exceptions.{Error, unresolvable_host, is_runtime}
use hiyori.Resolvers.Base.{ResolvedResult, resolved_result}
use hiyori.Resolvers.Fresh.{lower_ttl, at_least, hosts_first}
use hiyori.Resolvers.Async.{
  HostRecord, is_dns_error, first_raised, read_items, read_answers, answered, lookup_now,
}

-- The lower of two times to live that may be missing.
abbrev pub meet : Option ℤ → Option ℤ → Option ℤ
meet none b = b
meet (some a) none = some a
meet (some a) (some b) = some (if b <ℤ a then b else a)

pub meet_comm : (a b : Option ℤ) → meet a b ≡ meet b a
meet_comm none none = refl
meet_comm none (some b) = refl
meet_comm (some a) none = refl
meet_comm (some (pos a)) (some (pos b)) = ground arith
meet_comm (some (pos a)) (some (negsuc b)) = ground arith
meet_comm (some (negsuc a)) (some (pos b)) = ground arith
meet_comm (some (negsuc a)) (some (negsuc b)) = ground arith

pub meet_assoc : (a b c : Option ℤ) → meet (meet a b) c ≡ meet a (meet b c)
meet_assoc none b c = refl
meet_assoc (some a) none c = refl
meet_assoc (some a) (some b) none = refl
meet_assoc (some a) (some b) (some c) = ground arith

-- The tasks have answers, or DNS errors.
abbrev pub OnlyDns : List (Outcome Error (List HostRecord)) → Type 0
OnlyDns [] = Unit
OnlyDns (ok items ∷ done) = OnlyDns done
OnlyDns (raise e ∷ done) = (is_dns_error e ≡ true) × OnlyDns done

-- The greater of `min_ttl` and a time to live that may be missing.
abbrev pub floored : ℕ → Option ℤ → ℤ
floored min_ttl none = pos min_ttl
floored min_ttl (some (negsuc n)) = pos min_ttl
floored min_ttl (some (pos n)) = if leb min_ttl n then pos n else pos min_ttl

at_least-floored : (min_ttl : ℕ) (ttl : Option ℤ) → at_least min_ttl ttl ≡ floored min_ttl ttl
unfolding at_least
at_least-floored min_ttl none = refl
at_least-floored min_ttl (some (negsuc n)) = ground arith
at_least-floored min_ttl (some (pos n)) = ground arith

module _ {A : Type 0} ⦃eq : Equal (A × ℤ)⦄ (ip_address : Str → Option A) where
  -- The addresses of an answer, of those of its items that have one, and their lowest time to live.
  abbrev with_address : Option A → ℤ → List (A × ℤ) → List (A × ℤ)
  with_address none port rest = rest
  with_address (some ip) port rest = (ip, port) ∷ rest

  abbrev pub addresses : ℤ → List HostRecord → List (A × ℤ)
  addresses port [] = []
  addresses port (r ∷ rs) = with_address (ip_address r.host) port (addresses port rs)

  abbrev with_ttl : Option A → ℤ → Option ℤ → Option ℤ
  with_ttl none ttl rest = rest
  with_ttl (some ip) ttl rest = meet (some ttl) rest

  abbrev pub lowest : List HostRecord → Option ℤ
  lowest [] = none
  lowest (r ∷ rs) = with_ttl (ip_address r.host) r.ttl (lowest rs)

  -- those of all tasks
  abbrev pub all_addresses : ℤ → List (Outcome Error (List HostRecord)) → List (A × ℤ)
  all_addresses port [] = []
  all_addresses port (ok items ∷ done) = addresses port items ++ all_addresses port done
  all_addresses port (raise e ∷ done) = all_addresses port done

  abbrev pub all_lowest : List (Outcome Error (List HostRecord)) → Option ℤ
  all_lowest [] = none
  all_lowest (ok items ∷ done) = meet (lowest items) (all_lowest done)
  all_lowest (raise e ∷ done) = all_lowest done

  -- UnresolvableHost without addresses, and else the addresses with a ttl of at least `min_ttl`.
  abbrev pub resolved :
      ℕ → Str → ℤ → ℕ → Option ℤ → List (A × ℤ) → Outcome Error (ResolvedResult (A × ℤ))
  resolved now host port min_ttl ttl [] = raise unresolvable_host
  resolved now host port min_ttl ttl (x ∷ xs) =
      ok (resolved_result now host port (x ∷ xs) (floored min_ttl ttl))

  pub meet-nil : (a : Option ℤ) → meet a none ≡ a
  meet-nil none = refl
  meet-nil (some a) = refl

  meet-lower_ttl : (o : Option ℤ) (t : ℤ) → some (lower_ttl o t) ≡ meet o (some t)
  unfolding lower_ttl
  meet-lower_ttl none t = refl
  meet-lower_ttl (some a) t = refl

  read_items-addresses :
      (port : ℤ) (items : List HostRecord) (results : List (A × ℤ)) (ttl : Option ℤ)
      → read_items ip_address port items results ttl
        ≡ (add_all results (addresses port items), meet ttl (lowest items))
  unfolding read_items add_all
  read_items-addresses port [] results ttl = rw (meet-nil ttl) refl
  read_items-addresses port (r ∷ rs) results ttl = elim (Option-cases (ip_address r.host)) [
    | inl invalid ↦ rw (invalid, read_items) (read_items-addresses port rs results ttl)
    | inr (ip, found) ↦
        rw (found, read_items)
          (read_items-addresses port rs (add results (ip, port)) (some (lower_ttl ttl r.ttl))
            ∙ rw (meet-lower_ttl ttl r.ttl, meet_assoc ttl (some r.ttl) (lowest rs)) refl)
  ]

  read_answers-addresses :
      (port : ℤ) (done : List (Outcome Error (List HostRecord))) (results : List (A × ℤ))
      (ttl : Option ℤ)
      → OnlyDns done
      → read_answers ip_address port done results ttl
        ≡ ok (add_all results (all_addresses port done), meet ttl (all_lowest done))
  unfolding read_answers add_all
  read_answers-addresses port [] results ttl h = rw (meet-nil ttl) refl
  read_answers-addresses port (raise e ∷ done) results ttl (dns, h) =
      rw (dns, read_answers) (read_answers-addresses port done results ttl h)
  read_answers-addresses port (ok items ∷ done) results ttl h =
      ap (λ x. read_answers ip_address port done x.0 x.1)
        (read_items-addresses port items results ttl)
      ∙ read_answers-addresses port done (add_all results (addresses port items))
          (meet ttl (lowest items)) h
      ∙ rw
          (
            add_all-append results (addresses port items) (all_addresses port done),
            meet_assoc ttl (lowest items) (all_lowest done),
          )
          refl

  first_raised-OnlyDns :
      (done : List (Outcome Error (List HostRecord)))
      → OnlyDns done
      → (is_runtime (first_raised done) || is_dns_error (first_raised done)) ≡ true
  unfolding first_raised is_runtime
  first_raised-OnlyDns [] h = refl
  first_raised-OnlyDns (ok items ∷ done) h = first_raised-OnlyDns done h
  first_raised-OnlyDns (raise e ∷ done) (dns, h) = ground arith

  answered-resolved :
      (now : ℕ) (host : Str) (port : ℤ) (min_ttl : ℕ)
      (done : List (Outcome Error (List HostRecord))) (ttl : Option ℤ) (xs : List (A × ℤ))
      → OnlyDns done
      → answered ip_address now host port min_ttl done (ok (xs, ttl))
        ≡ resolved now host port min_ttl ttl xs
  unfolding answered
  answered-resolved now host port min_ttl done ttl [] h = rw (first_raised-OnlyDns done h) refl
  answered-resolved now host port min_ttl done ttl (x ∷ xs) h =
      ap (λ t. ok (resolved_result now host port (x ∷ xs) t)) (at_least-floored min_ttl ttl)

  -- If the queries raise nothing but DNS errors, and the hosts file is not asked or raises
  -- UnresolvableHost, `lookup_now` answers with the set of all valid addresses that any query gave, in
  -- the order in which they first come, for the lowest of their times to live but at least `min_ttl`, and
  -- raises UnresolvableHost if there is none: its RuntimeError does not come out. What the hosts file has is answered whatever the queries give.
  pub lookup_now-resolved :
      (now : ℕ) (host : Str) (port : ℤ) (min_ttl : ℕ)
      (done : List (Outcome Error (List HostRecord)))
      → OnlyDns done
      → (lookup_now ip_address now host port min_ttl none done
          ≡ resolved now host port min_ttl (all_lowest done) (set_of (all_addresses port done)))
        × (lookup_now ip_address now host port min_ttl (some (raise unresolvable_host)) done
            ≡ resolved now host port min_ttl (all_lowest done) (set_of (all_addresses port done)))
        × ((r : ResolvedResult (A × ℤ))
            → lookup_now ip_address now host port min_ttl (some (ok r)) done ≡ ok r)
  unfolding lookup_now hosts_first
  lookup_now-resolved now host port min_ttl done h =
      let fresh =
        ap (answered ip_address now host port min_ttl done)
          (read_answers-addresses port done [] none h)
        ∙ answered-resolved now host port min_ttl done (all_lowest done)
            (set_of (all_addresses port done)) h in
      (fresh, fresh, λ r. refl)
