-- ===== src/Resolvers/Order.antt =====
-- The tasks that are done are a set, which Python iterates in no fixed order: AsyncResolver's answer does
-- not depend on it. In the abstract view the addresses of an answer have no order.
use hiyori.Prelude.{
  Equal, set_of, ℕ, ◌≡◌, refl, ap, sym, ◌∙◌, Option, none, List, [], ◌∷◌, append-nil, Str, ℤ,
}
use mathlib.Core.List.{Perm, Permᴰ}
use mathlib.Core.List.Permᴰ
use hiyori.Prelude.SetOrder.{add_all_comm}
use mathlib.Core.Quot
use mathlib.Core.Quot.{Quot}
use hiyori.Outcome.{Outcome, ok, raise}
use hiyori.Exceptions.{Error}
use hiyori.Resolvers.Base.{ResolvedResult, resolved_result}
use hiyori.Resolvers.Async.{HostRecord, lookup_now}
use hiyori.Resolvers.Answers.{
  meet, meet_comm, meet-nil, addresses, lowest, OnlyDns, all_addresses, all_lowest, resolved,
  lookup_now-resolved, floored,
}

-- A ResolvedResult with its results in no order.
pub record Resolved (R : Type 0) : Type 0 where
  pub host : Str
  pub port : ℤ
  pub results : Quot {α = List R} Perm
  pub ttl : ℤ
  pub resolved_at : ℕ

abbrev pub unordered : {R : Type 0} → Outcome Error (ResolvedResult R) → Outcome Error (Resolved R)
unordered (raise e) = raise e
unordered (ok r) = ok (record {
  host = r.host;
  port = r.port;
  results = Quot.mk r.results;
  ttl = r.ttl;
  resolved_at = r.resolved_at;
})

module _ {A : Type 0} ⦃eq : Equal (A × ℤ)⦄ (ip_address : Str → Option A) (now : ℕ) (host : Str)
    (port : ℤ) (min_ttl : ℕ) where
  abbrev unordered_ok : ℤ → Quot {α = List (A × ℤ)} Perm → Outcome Error (Resolved (A × ℤ))
  unordered_ok ttl results =
      ok (record { host = host; port = port; results = results; ttl = ttl; resolved_at = now })

  -- The same addresses in another order give the same.
  unordered-Permᴰ :
      (ttl : Option ℤ) {xs ys : List (A × ℤ)}
      → Permᴰ xs ys
      → unordered (resolved ip_address now host port min_ttl ttl xs)
        ≡ unordered (resolved ip_address now host port min_ttl ttl ys)
  unfolding resolved_result
  unordered-Permᴰ ttl {xs = []} {ys = []} p = refl
  unordered-Permᴰ ttl {xs = []} {ys = y ∷ ys} p = absurd (let empty = Permᴰ.length-eq p in cc)
  unordered-Permᴰ ttl {xs = x ∷ xs} {ys = []} p = absurd (let empty = Permᴰ.length-eq p in cc)
  unordered-Permᴰ ttl {xs = x ∷ xs} {ys = y ∷ ys} p =
      ap (unordered_ok (floored min_ttl ttl)) (Quot.sound ∣ p ∣₁)

  of_pair :
      (x y : Outcome Error (List HostRecord))
      → unordered (
          resolved ip_address now host port min_ttl
            (all_lowest ip_address (x ∷ y ∷ []))
            (set_of (all_addresses ip_address port (x ∷ y ∷ []))))
        ≡ unordered (
            resolved ip_address now host port min_ttl
              (all_lowest ip_address (y ∷ x ∷ []))
              (set_of (all_addresses ip_address port (y ∷ x ∷ []))))
  of_pair (ok a) (ok b) =
      rw
        (
          append-nil (addresses ip_address port a),
          append-nil (addresses ip_address port b),
          meet-nil ip_address (lowest ip_address a),
          meet-nil ip_address (lowest ip_address b),
          meet_comm (lowest ip_address a) (lowest ip_address b),
        )
        (unordered-Permᴰ (meet (lowest ip_address b) (lowest ip_address a))
          (add_all_comm [] (addresses ip_address port a) (addresses ip_address port b)))
  of_pair (ok a) (raise e) = refl
  of_pair (raise e) (ok b) = refl
  of_pair (raise e) (raise e') = refl

  swapped : (x y : Outcome Error (List HostRecord)) → OnlyDns (x ∷ y ∷ []) → OnlyDns (y ∷ x ∷ [])
  swapped (ok a) (ok b) h = tt
  swapped (ok a) (raise e) h = h
  swapped (raise e) (ok b) h = h
  swapped (raise e) (raise e') (p, (q, h)) = (q, (p, h))

  -- If the two queries raise nothing but DNS errors, and the hosts file is not asked, `lookup_now`
  -- gives the same result for either order in which the tasks are read, up to the order of the
  -- addresses.
  pub lookup_now-unordered :
      (x y : Outcome Error (List HostRecord))
      → OnlyDns (x ∷ y ∷ [])
      → unordered (lookup_now ip_address now host port min_ttl none (x ∷ y ∷ []))
        ≡ unordered (lookup_now ip_address now host port min_ttl none (y ∷ x ∷ []))
  lookup_now-unordered x y h =
      ap unordered (lookup_now-resolved ip_address now host port min_ttl (x ∷ y ∷ []) h).0
      ∙ of_pair x y
      ∙ sym (
          ap unordered
            (lookup_now-resolved ip_address now host port min_ttl (y ∷ x ∷ []) (swapped x y h)).0)
