-- ===== src/Resolvers/Dns.antt =====
-- What HttpsResolver answers from the two queries.
use hiyori.Prelude.{
  Equal, member, add, add_all, set_of, add_all-append, ℕ, ◌≡◌, ◌∙◌, ap, sym, refl, Bool-cases,
  Option, none, some, List, [], ◌∷◌, ◌++◌, Str, codes, ℤ, ◌<ℤ◌, if◌then◌else◌, inl, inr,
}
use hiyori.Outcome.{Outcome, ok, raise, ◌>>=◌}
use hiyori.Exceptions.{Error, unresolvable_host, is_runtime}
use hiyori.Utf8.{to_json}
use hiyori.Messages.{Response}
use hiyori.Client.Errors.{ClientError}
use hiyori.Resolvers.Base.{ResolvedResult, resolved_result}
use hiyori.Resolvers.Json.{Json, get_item, iterate, is_dict, as_int}
use hiyori.Resolvers.Https.{
  is_dns_failure, reraised, client_reraised, translated, or_value_error, lower_value, checked_ttl,
  address, read_records, read_answer, read_response, gather, first_error, combined, lookup_dns,
}
use hiyori.Resolvers.Fresh.{lower_ttl, at_least}
use hiyori.Resolvers.Raised.{
  Ensures, Anything, IsParser, bind-Ensures, or_value_error-Ensures, get_item-Ensures,
  iterate-Ensures, lower_value-Ensures, to_json-Ensures,
}

module _ {A : Type 0} where
  abbrev Some : List (A × ℤ) → Type 0
  Some [] = ⊥
  Some (x ∷ xs) = Unit

  -- A query that has failed, or has results.
  abbrev pub Usable : Outcome Error (List (A × ℤ) × ℤ) → Type 0
  Usable (ok (results, ttl)) = Some results
  Usable (raise e) = e ≡ unresolvable_host

module _ {A : Type 0} ⦃eq : Equal (A × ℤ)⦄ where
  Some-add : (xs : List (A × ℤ)) (x : A × ℤ) → Some (add xs x)
  unfolding add member
  Some-add [] x = tt
  Some-add (y ∷ xs) x = elim (Bool-cases (member x (y ∷ xs))) [
    | inl old ↦ rw old tt
    | inr new ↦ rw new tt
  ]

  Some-add_all : (xs more : List (A × ℤ)) → Some xs → Some (add_all xs more)
  unfolding add_all
  Some-add_all xs [] h = h
  Some-add_all xs (x ∷ more) h = Some-add_all (add xs x) more (Some-add xs x)

module _ {A : Type 0} ⦃eq : Equal (A × ℤ)⦄ (ip_address : Json → Option A) where
  address-Ensures : (r : Json) → Ensures Anything (address ip_address r)
  unfolding address
  address-Ensures r =
      bind-Ensures Anything Anything (get_item (codes "data") r) _
        (get_item-Ensures (codes "data") r) (λ value h. or_value_error-Ensures (ip_address value))

  -- With a ttl there are results.
  abbrev Kept : List (A × ℤ) × Option Json → Type 0
  Kept (results, none) = Unit
  Kept (results, some ttl) = Some results

  read_records-Ensures :
      (port : ℤ) (rs : List Json) (results : List (A × ℤ)) (ttl : Option Json)
      → Kept (results, ttl)
      → Ensures Kept (read_records ip_address port rs results ttl)
  unfolding read_records
  read_records-Ensures port [] results ttl h = h
  read_records-Ensures port (r ∷ rs) results ttl h =
      bind-Ensures Anything Kept (address ip_address r) _ (address-Ensures r) (λ ip _.
        bind-Ensures Anything Kept (get_item (codes "TTL") r) _ (get_item-Ensures (codes "TTL") r)
          (λ other _.
            bind-Ensures Anything Kept (lower_value ttl other) _ (lower_value-Ensures ttl other)
              (λ lowest _.
                read_records-Ensures port rs (add results (ip, port)) (some lowest)
                  (Some-add results (ip, port)))))

  abbrev Filled : List (A × ℤ) × ℤ → Type 0
  Filled (results, ttl) = Some results

  checked_ttl-Filled :
      (results : List (A × ℤ)) (ttl : Option Json)
      → Kept (results, ttl)
      → Ensures Filled (checked_ttl ttl >>= λ lowest. ok (results, lowest))
  unfolding checked_ttl reraised is_dns_failure
  checked_ttl-Filled results none h = refl
  checked_ttl-Filled results (some value) h =
      bind-Ensures Anything Filled (or_value_error (as_int value)) _
        (or_value_error-Ensures (as_int value)) (λ lowest _. h)

  read_answer-Ensures : (port : ℤ) (msg : Json) → Ensures Filled (read_answer ip_address port msg)
  unfolding read_answer reraised is_dns_failure
  read_answer-Ensures port msg = elim (Bool-cases (is_dict msg)) [
    | inr other ↦ rw other refl
    | inl dict ↦ rw dict (
        bind-Ensures Anything Filled (get_item (codes "Answer") msg) _
          (get_item-Ensures (codes "Answer") msg)
          (λ answer _.
            bind-Ensures Anything Filled (iterate answer) _ (iterate-Ensures answer) (λ records _.
              bind-Ensures Kept Filled (read_records ip_address port records [] none) _
                (read_records-Ensures port records [] none tt)
                (λ read h. checked_ttl-Filled read.0 read.1 h))))
  ]

module _ {A : Type 0} where
  -- the results of both queries, and the lower ttl
  abbrev pub both :
      Outcome Error (List (A × ℤ) × ℤ) → Outcome Error (List (A × ℤ) × ℤ) → List (A × ℤ)
  both (ok (xs, t)) (ok (ys, u)) = xs ++ ys
  both (ok (xs, t)) (raise e) = xs
  both (raise e) (ok (ys, u)) = ys
  both (raise e) (raise e') = []

  abbrev pub lowest : Outcome Error (List (A × ℤ) × ℤ) → Outcome Error (List (A × ℤ) × ℤ) → Option ℤ
  lowest (ok (xs, t)) (ok (ys, u)) = some (if u <ℤ t then u else t)
  lowest (ok (xs, t)) (raise e) = some t
  lowest (raise e) (ok (ys, u)) = some u
  lowest (raise e) (raise e') = none

  -- UnresolvableHost without results, and else the results with a ttl of at least `min_ttl`.
  abbrev pub resolved :
      ℕ → Str → ℤ → ℕ → Option ℤ → List (A × ℤ) → Outcome Error (ResolvedResult (A × ℤ))
  resolved now host port min_ttl ttl [] = raise unresolvable_host
  resolved now host port min_ttl ttl (x ∷ xs) =
      ok (resolved_result now host port (x ∷ xs) (at_least min_ttl ttl))

module _ {A : Type 0} ⦃eq : Equal (A × ℤ)⦄ where
  combined-resolved :
      (now : ℕ) (host : Str) (port : ℤ) (min_ttl : ℕ)
      (done : List (Outcome Error (List (A × ℤ) × ℤ))) (ttl : Option ℤ) (xs : List (A × ℤ))
      → Some xs
      → combined now host port min_ttl done (ok (xs, ttl)) ≡ resolved now host port min_ttl ttl xs
  unfolding combined
  combined-resolved now host port min_ttl done ttl [] h = elim h [ ]
  combined-resolved now host port min_ttl done ttl (x ∷ xs) h = refl

  Some-set_of : (xs : List (A × ℤ)) → Some xs → Some (set_of xs)
  unfolding add_all
  Some-set_of [] h = h
  Some-set_of (x ∷ xs) h = Some-add_all (add [] x) xs (Some-add [] x)

  pub lookup_dns-pair :
      (now : ℕ) (host : Str) (port : ℤ) (min_ttl : ℕ) (x y : Outcome Error (List (A × ℤ) × ℤ))
      → Usable x
      → Usable y
      → lookup_dns now host port min_ttl (x ∷ y ∷ [])
        ≡ resolved now host port min_ttl (lowest x y) (set_of (both x y))
  unfolding lookup_dns gather combined lower_ttl first_error is_runtime add_all
  lookup_dns-pair now host port min_ttl (ok (xs, t)) (ok (ys, u)) h k =
      combined-resolved now host port min_ttl (ok (xs, t) ∷ ok (ys, u) ∷ [])
        (some (if u <ℤ t then u else t)) (add_all (set_of xs) ys)
        (Some-add_all (set_of xs) ys (Some-set_of xs h))
      ∙ ap (resolved now host port min_ttl (some (if u <ℤ t then u else t)))
          (sym (add_all-append [] xs ys))
  lookup_dns-pair now host port min_ttl (ok (xs, t)) (raise e) h k = rw k (
      combined-resolved now host port min_ttl (ok (xs, t) ∷ raise unresolvable_host ∷ []) (some t)
        (set_of xs) (Some-set_of xs h))
  lookup_dns-pair now host port min_ttl (raise e) (ok (ys, u)) h k = rw h (
      combined-resolved now host port min_ttl (raise unresolvable_host ∷ ok (ys, u) ∷ []) (some u)
        (set_of ys) (Some-set_of ys k))
  lookup_dns-pair now host port min_ttl (raise e) (raise e') h k = rw (h, k) refl

-- A response, or an exception that `query` catches.
abbrev pub IsAnswered : {H : Type 0} → Outcome (ClientError H) (Response H) → Type 0
IsAnswered (ok response) = Unit
IsAnswered (raise e) = client_reraised e ≡ unresolvable_host

module _ {A : Type 0} ⦃eq : Equal (A × ℤ)⦄ (ip_address : Json → Option A) where
  translated-Usable :
      (o : Outcome Error (List (A × ℤ) × ℤ)) → Ensures (Filled ip_address) o → Usable (translated o)
  unfolding translated
  translated-Usable (ok (results, ttl)) h = h
  translated-Usable (raise e) h = h

module _ {A H : Type 0} ⦃eq : Equal (A × ℤ)⦄ (ip_address : Json → Option A)
    (loads : Str → Outcome Error Json) where
  pub read_response-Usable :
      (port : ℤ) (answered : Outcome (ClientError H) (Response H))
      → IsParser loads
      → IsAnswered answered
      → Usable (read_response ip_address loads port answered)
  unfolding read_response
  read_response-Usable port (raise e) h k = k
  read_response-Usable port (ok response) h k =
      translated-Usable ip_address (to_json loads response.body >>= read_answer ip_address port) (
        bind-Ensures Anything (Filled ip_address) (to_json loads response.body)
          (read_answer ip_address port) (to_json-Ensures loads response.body h)
          (λ msg _. read_answer-Ensures ip_address port msg))

  -- Whatever two responses the server gives, or exceptions that `query` catches, `lookup_now` answers with
  -- the results of both queries, each once, for the lower of their ttls but at least `min_ttl`, and raises
  -- UnresolvableHost if there are none: no other exception comes out, the ValueError for a lack of results
  -- neither. `json.loads` raises only what `query` catches.
  pub lookup_dns-resolved :
      (now : ℕ) (host : Str) (port : ℤ) (min_ttl : ℕ) (a b : Outcome (ClientError H) (Response H))
      → IsParser loads
      → IsAnswered a
      → IsAnswered b
      → lookup_dns now host port min_ttl
          (read_response ip_address loads port a ∷ read_response ip_address loads port b ∷ [])
        ≡ resolved now host port min_ttl
            (lowest (read_response ip_address loads port a) (read_response ip_address loads port b))
            (set_of (
              both (read_response ip_address loads port a) (read_response ip_address loads port b)))
  lookup_dns-resolved now host port min_ttl a b h first second =
      lookup_dns-pair now host port min_ttl (read_response ip_address loads port a)
        (read_response ip_address loads port b) (read_response-Usable port a h first)
        (read_response-Usable port b h second)
