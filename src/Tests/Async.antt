-- ===== src/Tests/Async.antt =====
-- The theorems of Resolvers/Answers and Resolvers/Order on a host with an address of each kind.
use hiyori.Prelude.{
  add_all, ◌=s=◌, ◌≡◌, refl, Option, none, some, List, [], ◌∷◌, Str, codes, ℤ, pos,
}
use hiyori.Outcome.{Outcome, ok, raise}
use hiyori.Exceptions.{Error, dns_error, unresolvable_host}
use hiyori.Resolvers.Base.{same_port, ResolvedResult, resolved_result}
use hiyori.Resolvers.Async.{HostRecord, is_dns_error, lookup_now}
use hiyori.Resolvers.Answers.{lookup_now-resolved}
use hiyori.Resolvers.Order.{unordered, lookup_now-unordered}
use hiyori.Tests.Equality.{texts}

abbrev text_ip : Str → Option Str
text_ip [] = none
text_ip (c ∷ s) = some (c ∷ s)

abbrev with_v4 : Outcome Error (List HostRecord)
with_v4 = ok (
    record { host = codes "10.0.0.1"; ttl = pos 300 }
    ∷ record { host = []; ttl = pos 5 }
    ∷ record { host = codes "10.0.0.1"; ttl = pos 280 }
    ∷ record { host = codes "10.0.0.2"; ttl = pos 200 }
    ∷ [])

abbrev with_v6 : Outcome Error (List HostRecord)
with_v6 = ok (record { host = codes "::1"; ttl = pos 250 } ∷ [])

abbrev no_v6 : Outcome Error (List HostRecord)
no_v6 = raise dns_error

abbrev two_addresses : ResolvedResult (Str × ℤ)
two_addresses =
    resolved_result 7 (codes "a") (pos 80)
      ((codes "10.0.0.1", pos 80) ∷ (codes "10.0.0.2", pos 80) ∷ []) (pos 240)

lookup_now-resolved_example :
    (lookup_now text_ip 7 (codes "a") (pos 80) 240 none (with_v4 ∷ no_v6 ∷ []) ≡ ok two_addresses)
    × (lookup_now text_ip 7
          (codes "a")
          (pos 80)
          240
          (some (raise unresolvable_host))
          (with_v4 ∷ no_v6 ∷ [])
        ≡ ok two_addresses)
    × ((r : ResolvedResult (Str × ℤ))
        → lookup_now text_ip 7 (codes "a") (pos 80) 240 (some (ok r)) (with_v4 ∷ no_v6 ∷ []) ≡ ok r)
unfolding is_dns_error add_all ◌=s=◌ same_port
lookup_now-resolved_example =
    lookup_now-resolved text_ip 7 (codes "a") (pos 80) 240 (with_v4 ∷ no_v6 ∷ []) (refl, tt)

lookup_now-unordered_example :
    unordered (lookup_now text_ip 7 (codes "a") (pos 80) 60 none (with_v4 ∷ with_v6 ∷ []))
    ≡ unordered (lookup_now text_ip 7 (codes "a") (pos 80) 60 none (with_v6 ∷ with_v4 ∷ []))
lookup_now-unordered_example =
    lookup_now-unordered text_ip 7 (codes "a") (pos 80) 60 with_v4 with_v6 tt
