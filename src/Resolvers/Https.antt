-- ===== src/Resolvers/Https.antt =====
-- HttpsResolver of hiyori/resolvers/https.py. `json.loads` is an argument, and so is
-- `ipaddress.ip_address`, with `none` for its ValueError; `A` is the type of addresses.
use hiyori.Prelude.{
  Equal, add, add_all, ℕ, Bool, true, ◌||◌, Option, none, some, List, [], ◌∷◌, Str, codes, ℤ,
  if◌then◌else◌,
}
use hiyori.Outcome.{Outcome, ok, raise, ◌>>=◌}
use hiyori.Exceptions.{
  Error, unresolvable_host, value_error, key_error, index_error, type_error, is_hiyori, is_timeout,
  is_runtime,
}
use hiyori.Utf8.{to_json}
use hiyori.Messages.{Response}
use hiyori.Client.Errors.{ClientError, lower, http_error, too_many_redirects}
use hiyori.Resolvers.Fresh.{lower_ttl, at_least, hosts_first}
use hiyori.Resolvers.Base.{ResolvedResult, resolved_result}
use hiyori.Resolvers.Json.{Json, get_item, iterate, is_dict, as_int, greater}

-- the `except` clause of `query`
unfoldable pub is_dns_failure : Error → Bool
unfolding is_hiyori is_timeout
is_dns_failure key_error = true
is_dns_failure value_error = true
is_dns_failure index_error = true
is_dns_failure type_error = true
is_dns_failure e = is_hiyori e || is_timeout e

-- What is raised in place of an exception of the body of `query`. HttpError and TooManyRedirects are
-- exceptions of the library.
unfoldable pub reraised : Error → Error
unfolding is_dns_failure
reraised e = if is_dns_failure e then unresolvable_host else e

unfoldable pub client_reraised : {H : Type 0} → ClientError H → Error
unfolding reraised
client_reraised (lower e) = reraised e
client_reraised (http_error response) = unresolvable_host
client_reraised (too_many_redirects request) = unresolvable_host

unfoldable pub translated : {B : Type 0} → Outcome Error B → Outcome Error B
unfolding reraised
translated (ok b) = ok b
translated (raise e) = raise (reraised e)

-- `if ttl is None or ttl > other: ttl = other`, for the values of the text
unfoldable pub lower_value : Option Json → Json → Outcome Error Json
unfolding greater
lower_value none other = ok other
lower_value (some ttl) other = do later ← greater ttl other; ok (if later then other else ttl)

abbrev pub or_value_error : {B : Type 0} → Option B → Outcome Error B
or_value_error none = raise value_error
or_value_error (some b) = ok b

-- `if not isinstance(ttl, int): raise ValueError(…)`
unfoldable pub checked_ttl : Option Json → Outcome Error ℤ
unfolding as_int
checked_ttl none = raise value_error
checked_ttl (some value) = or_value_error (as_int value)

module _ {A : Type 0} ⦃eq : Equal (A × ℤ)⦄ (ip_address : Json → Option A) where
  unfoldable pub address : Json → Outcome Error A
  unfolding get_item
  address record_value = do
    value ← get_item (codes "data") record_value
    or_value_error (ip_address value)

  -- the loop over the records of an answer; `results` and `ttl` as they are so far.
  unfoldable pub read_records :
      ℤ → List Json → List (A × ℤ) → Option Json → Outcome Error (List (A × ℤ) × Option Json)
  unfolding address get_item lower_value add
  read_records port [] results ttl = ok (results, ttl)
  read_records port (r ∷ rs) results ttl = do
    ip ← address r
    other ← get_item (codes "TTL") r
    lowest ← lower_value ttl other
    read_records port rs (add results (ip, port)) (some lowest)

  -- what `query` makes of the value of a response
  unfoldable pub read_answer : ℤ → Json → Outcome Error (List (A × ℤ) × ℤ)
  unfolding is_dict get_item iterate read_records checked_ttl
  read_answer port msg =
      if is_dict msg
      then (do
        answer ← get_item (codes "Answer") msg
        records ← iterate answer
        (results, ttl) ← read_records port records [] none
        lowest ← checked_ttl ttl
        ok (results, lowest))
      else raise value_error

  -- `query`, from what the client's `get` gives
  unfoldable pub read_response :
      {H : Type 0}
      → (Str → Outcome Error Json)
      → ℤ
      → Outcome (ClientError H) (Response H)
      → Outcome Error (List (A × ℤ) × ℤ)
  unfolding translated client_reraised to_json read_answer
  read_response loads port (raise e) = raise (client_reraised e)
  read_response loads port (ok response) =
      translated (to_json loads response.body >>= read_answer port)

module _ {A : Type 0} ⦃eq : Equal (A × ℤ)⦄ where
  -- the loop over the tasks that are done, in any order, which skips UnresolvableHost
  unfoldable pub gather :
      List (Outcome Error (List (A × ℤ) × ℤ))
      → List (A × ℤ)
      → Option ℤ
      → Outcome Error (List (A × ℤ) × Option ℤ)
  unfolding lower_ttl add_all
  gather [] results ttl = ok (results, ttl)
  gather (ok (more, other) ∷ done) results ttl =
      gather done (add_all results more) (some (lower_ttl ttl other))
  gather (raise unresolvable_host ∷ done) results ttl = gather done results ttl
  gather (raise e ∷ done) results ttl = raise e

  -- What is raised where there are no results: the exception of a task, or ValueError.
  unfoldable pub first_error : List (Outcome Error (List (A × ℤ) × ℤ)) → Error
  first_error [] = value_error
  first_error (raise e ∷ done) = e
  first_error (ok answer ∷ done) = first_error done

  unfoldable pub combined :
      ℕ
      → Str
      → ℤ
      → ℕ
      → List (Outcome Error (List (A × ℤ) × ℤ))
      → Outcome Error (List (A × ℤ) × Option ℤ)
      → Outcome Error (ResolvedResult (A × ℤ))
  unfolding at_least first_error is_runtime resolved_result
  combined now host port min_ttl done (raise e) = raise e
  combined now host port min_ttl done (ok ([], ttl)) =
      let e = first_error done in if is_runtime e then raise unresolvable_host else raise e
  combined now host port min_ttl done (ok (r ∷ rs, ttl)) =
      ok (resolved_result now host port (r ∷ rs) (at_least min_ttl ttl))

  -- `lookup_now` after the hosts file has given nothing
  unfoldable pub lookup_dns :
      ℕ
      → Str
      → ℤ
      → ℕ
      → List (Outcome Error (List (A × ℤ) × ℤ))
      → Outcome Error (ResolvedResult (A × ℤ))
  unfolding gather combined
  lookup_dns now host port min_ttl done = combined now host port min_ttl done (gather done [] none)

  -- `lookup_now`: `hosts` is what the resolver of the hosts file answers, if there is one.
  unfoldable pub resolve :
      ℕ
      → Str
      → ℤ
      → ℕ
      → Option (Outcome Error (ResolvedResult (A × ℤ)))
      → List (Outcome Error (List (A × ℤ) × ℤ))
      → Outcome Error (ResolvedResult (A × ℤ))
  unfolding lookup_dns hosts_first
  resolve now host port min_ttl hosts done =
      hosts_first hosts (lookup_dns now host port min_ttl done)
