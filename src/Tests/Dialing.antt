-- ===== src/Tests/Dialing.antt =====
-- The theorems of Resolvers/Ready and Resolvers/Reuse on a host with three addresses.
use hiyori.Prelude.{
  ℕ, zero, suc, ◌≡◌, refl, Bool, true, false, Option, none, some, [], ◌∷◌, Str, ℤ, codes,
  split_once, pos, arith,
}
use hiyori.Outcome.{Outcome, ok, raise}
use hiyori.Exceptions.{Error, os_error, is_exception}
use hiyori.Messages.{http, v1_1}
use hiyori.Decimal.{int}
use hiyori.Connection.Id.{port, port_of, hostname}
use hiyori.Connection.Object.{HttpConnection, get_ready}
use hiyori.Resolvers.Base.{
  ResolvedResult, expired, expired_after, CacheKey, BaseResolver, base_resolver, lookup,
}
use hiyori.Resolvers.Open.{unix_socket, endpoint, open_connection}
use hiyori.Resolvers.Dialing.{dialing, dial}
use hiyori.Resolvers.Ready.{Readied, get_ready-Readied}
use hiyori.Resolvers.Reuse.{Won, dialing-again}
use hiyori.Tests.Dict.{assoc_dict}
use hiyori.Tests.Wire.{Wire, wire, answering}

abbrev three : ResolvedResult ℕ
three = record {
  host = codes "a";
  port = pos 8080;
  results = 0 ∷ 1 ∷ 2 ∷ [];
  ttl = pos 60;
  resolved_at = 10;
  fastest = none;
}

abbrev known : CacheKey → Outcome Error (ResolvedResult ℕ)
known key = ok three

abbrev nothing : BaseResolver ℕ → BaseResolver ℕ
nothing s = s

abbrev server : Wire
server = answering [] []

-- The first record is out of reach; the second opens at 5, and the third at 3.
abbrev opening : Bool → ℕ → ℕ × Outcome Error Wire
opening tls zero = (1, raise os_error)
opening tls (suc zero) = (5, ok (answering [] (codes "5")))
opening tls (suc (suc n)) = (3, ok server)

abbrev unreached : Bool → ℕ → Outcome Error Wire
unreached tls r = raise os_error

opening_plain :
    (tls : Bool) (r : ℕ) (e : Error) → (opening tls r).1 ≡ raise e → is_exception e ≡ true
unfolding is_exception
opening_plain tls zero e h = ground arith
opening_plain tls (suc zero) e h = cc
opening_plain tls (suc (suc n)) e h = cc

abbrev unconnected : HttpConnection Wire
unconnected = record {
  conn_id = record { authority = codes "a:8080"; scheme = http; http_version = v1_1 };
  max_initial_size = 65536;
  chunk_size = 4;
  tls = false;
  idle_timeout = 10;
  idle_timer = true;
  protocol = none;
  closing = false;
}

port_text : port unconnected.conn_id ≡ ok (pos 8080)
unfolding port split_once port_of int
port_text = refl

found_three :
    (lookup known nothing 10 (hostname unconnected.conn_id) (pos 8080) (base_resolver 60 true)).0
    ≡ ok three
unfolding lookup base_resolver
found_three = refl

get_ready-Readied_example :
    Readied wire known nothing opening unreached opening_plain unconnected (0 ∷ 1 ∷ 2 ∷ []) (
      get_ready wire
        (dial known nothing opening unreached 4 10 (base_resolver 60 true))
        unconnected)
get_ready-Readied_example =
    get_ready-Readied wire known nothing opening unreached opening_plain 4 10
      (base_resolver 60 true) unconnected (pos 8080) three refl refl port_text found_three refl
      (omega arith)

free : (base_resolver {R = ℕ} 60 true).overrides (codes "a", pos 8080) ≡ none
unfolding base_resolver
free = refl

found_at_a : (lookup known nothing 10 (codes "a") (pos 8080) (base_resolver 60 true)).0 ≡ ok three
unfolding lookup base_resolver
found_at_a = refl

dialed :
    (dialing known nothing opening unreached 4 10
      (codes "a")
      (pos 8080)
      false
      (base_resolver 60 true)).0
    ≡ ok server
unfolding dialing base_resolver
dialed = refl

-- The backend is gone and no race would be won, but the third record is still there.
abbrev gone : CacheKey → Outcome Error (ResolvedResult ℕ)
gone key = raise os_error

abbrev reached : ℕ → Wire
reached n = answering [] (codes "again")

dialing-again_example :
    (w : ℕ) × Won (opening false) (unreached false) three w server
    × ((dialing known nothing opening unreached 4 10
            (codes "a")
            (pos 8080)
            false
            (base_resolver 60 true)).1.cache
          (codes "a", pos 8080)
        ≡ some (record three { fastest = some w }))
    × ((dialing gone nothing
          (λ t q. (1, raise os_error))
          (λ t q. ok (reached q))
          0
          70
          (codes "a")
          (pos 8080)
          false
          (dialing known nothing opening unreached 4 10
            (codes "a")
            (pos 8080)
            false
            (base_resolver 60 true)).1).0
        ≡ ok (reached w))
unfolding expired expired_after
dialing-again_example =
    dialing-again known nothing opening unreached 4 10 (codes "a") (pos 8080) false
      (base_resolver 60 true) free (λ s. refl) three server gone nothing
      (λ t q. (1, raise os_error)) reached 0 70 found_at_a dialed refl

-- What the event loop is asked for.
abbrev Asked : Type 0
Asked = Str × Option ℤ × Bool × Option Str

abbrev ask_socket : Str → Bool → Option Str → Outcome Error Asked
ask_socket path tls name = ok (path, none, tls, name)

abbrev ask_endpoint : Str → ℤ → Bool → Option Str → Outcome Error Asked
ask_endpoint ip port tls name = ok (ip, some port, tls, name)

test_open_connection :
    (open_connection
        (λ (ip : Str). ip)
        ask_socket
        ask_endpoint
        (codes "a")
        true
        (endpoint (codes "::1") (pos 443))
      ≡ ok (codes "::1", some (pos 443), true, some (codes "a")))
    × (open_connection
          (λ (ip : Str). ip)
          ask_socket
          ask_endpoint
          (codes "a")
          false
          (unix_socket (codes "/run/s"))
        ≡ ok (codes "/run/s", none, false, none))
unfolding open_connection
test_open_connection = (refl, refl)
