-- ===== src/Tests/Hosts.antt =====
-- The theorems of Resolvers/Addresses on a hosts file, in which an alias makes a line count for nothing.
use hiyori.Prelude.{
  add_all, ◌≡◌, refl, false, Option, some, List, [], ◌∷◌, Str, codes, ◌=s=◌, pos, arith,
}
use hiyori.Outcome.{ok, raise}
use hiyori.Exceptions.{os_error, unresolvable_host}
use hiyori.Resolvers.Base.{same_port, resolved_result}
use hiyori.Resolvers.Hosts.{HostsResolver, hosts_resolver, read_recently, lookup_now}
use hiyori.Resolvers.Addresses.{addresses, lookup_now-addresses, lookup_now-again}
use hiyori.Tests.Equality.{texts}

abbrev hosts_file : List Str
hosts_file =
    codes "127.0.0.1  localhost  # here"
    ∷ codes "# 10.0.0.1 a"
    ∷ codes "  10.0.0.2\ta #10.0.0.4 "
    ∷ codes "10.0.0.3 b b.example"
    ∷ codes "10.0.0.2 a"
    ∷ []

-- addresses that are their texts
abbrev any_text : Str → Option Str
any_text s = some s

abbrev never_read : HostsResolver Str
never_read = hosts_resolver 60

stale : read_recently any_text never_read.min_ttl never_read.last_read 5 ≡ false
unfolding read_recently hosts_resolver
stale = refl

lookup_now-addresses_example :
    (lookup_now any_text 5 (ok hosts_file) (codes "a") (pos 80) never_read).0
    ≡ ok (resolved_result 5 (codes "a") (pos 80) ((codes "10.0.0.2", pos 80) ∷ []) (pos 60))
unfolding addresses ◌=s=◌ hosts_resolver add_all same_port
lookup_now-addresses_example =
    lookup_now-addresses any_text 5 hosts_file never_read stale (codes "a") (pos 80)

test_lookup_now_again :
    (lookup_now any_text 20
      (raise os_error)
      (codes "b")
      (pos 80)
      (lookup_now any_text 5 (ok hosts_file) (codes "a") (pos 80) never_read).1).0
    ≡ raise unresolvable_host
unfolding addresses ◌=s=◌ hosts_resolver add_all same_port
test_lookup_now_again =
    lookup_now-again any_text 5 hosts_file never_read stale (codes "a") (pos 80) 20 (raise os_error)
      (codes "b") (pos 80) (omega arith)
