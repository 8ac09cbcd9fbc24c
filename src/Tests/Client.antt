-- ===== src/Tests/Client.antt =====
-- The theorems of Client/Sharing, Client/Closing, Client/Shutdown and Client/Refinement on a client with a pool.
use hiyori.Prelude.{
  ◌≡◌, refl, true, false, none, some, List, [], ◌∷◌, codes, ◌=s=◌, arith, if◌then◌else◌,
}
use hiyori.Outcome.{raise}
use hiyori.Exceptions.{runtime_error}
use hiyori.Messages.{http, https, v1_1, HttpConnectionId}
use hiyori.Connection.Object.{HttpConnection}
use hiyori.Client.Lock.{ClientLock, client_lock, read_enter, read_exit, close_enter}
use hiyori.Client.Pool.{same_id, lookup, HttpClient, get_conn, put_conn, shut, close_client}
use hiyori.Client.Sharing.{IsKeyed, get_conn-unshared, put_conn-IsKeyed, get_conn-put_conn}
use mathlib.Core.List.{Memᴰ}
use hiyori.Client.Closing.{close_client-shut}
use hiyori.Client.Shutdown.{
  Service, Step, enter, leave, give, begin_close, drain, Reach, here, next, IsNew, drained-final,
  close-finishes, Leaving,
}
use hiyori.Client.Refinement.{PoolOp, take_conn, give_conn, run, replay, view, run-replay}
use hiyori.Tests.Dict.{assoc_dict}
use hiyori.Tests.Wire.{Wire, wire}

abbrev pub a : HttpConnectionId
a = record { authority = codes "a"; scheme = http; http_version = v1_1 }

abbrev b : HttpConnectionId
b = record { authority = codes "b"; scheme = https; http_version = v1_1 }

abbrev pub conn_of : HttpConnectionId → HttpConnection Wire
conn_of id = record {
  conn_id = id;
  max_initial_size = 65536;
  chunk_size = 4;
  tls = false;
  idle_timeout = 10;
  idle_timer = true;
  protocol = none;
  closing = false;
}

abbrev pub client : List (HttpConnectionId × HttpConnection Wire) → ClientLock → HttpClient Wire
client conns lock = record {
  allow_keep_alive = true;
  max_initial_size = 65536;
  max_body_size = 100;
  chunk_size = 4;
  idle_timeout = 10;
  max_redirects = 3;
  raise_error = true;
  conns = conns;
  lock = lock;
}

abbrev with_a : HttpClient Wire
with_a = client ((a, conn_of a) ∷ []) (record { count = 1; idling = false; closing = false })

get_conn-unshared_example :
    ((get_conn wire a with_a).0.conn_id ≡ a)
    × ((get_conn wire a with_a).0.closing ≡ false)
    × ((j : HttpConnectionId)
        → lookup j (get_conn wire a with_a).1.conns
          ≡ (if same_id a j then none else lookup j with_a.conns))
    × IsKeyed (get_conn wire a with_a).1.conns
unfolding lookup
get_conn-unshared_example = get_conn-unshared wire a with_a (refl, refl, tt)

test_put_conn-IsKeyed : IsKeyed (put_conn wire (conn_of b) with_a).1.conns
unfolding lookup
test_put_conn-IsKeyed = put_conn-IsKeyed wire (conn_of b) with_a (refl, refl, tt)

get_conn-put_conn_example :
    get_conn wire b (put_conn wire (conn_of b) with_a).1 ≡ (conn_of b, with_a)
unfolding lookup same_id ◌=s=◌
get_conn-put_conn_example = get_conn-put_conn wire (conn_of b) with_a refl refl refl

close_client-shut_example :
    ((id : HttpConnectionId) (conn : HttpConnection Wire)
      → lookup id with_a.conns ≡ some conn
      → Memᴰ (shut wire conn) (close_client wire with_a).0)
    × ((x : HttpConnection Wire)
        → Memᴰ x (close_client wire with_a).0
        → (x.closing ≡ true)
          × ((conn : HttpConnection Wire) × (lookup conn.conn_id with_a.conns ≡ some conn)
              × (x ≡ shut wire conn)))
    × ((close_client wire with_a).1.conns ≡ [])
unfolding lookup
close_client-shut_example = close_client-shut wire with_a (refl, refl, tt)

-- One call enters, puts a connection into the pool and leaves; the client is closed meanwhile.
abbrev service : List (HttpConnectionId × HttpConnection Wire) → ClientLock → Service Wire
service conns lock = record { client = client conns lock; drained = false }

abbrev fresh : Service Wire
fresh = service [] (record { count = 0; idling = true; closing = false })

fresh-IsNew : IsNew wire fresh
unfolding client_lock
fresh-IsNew = record { fresh = refl; undrained = refl }

abbrev pooled : List (HttpConnectionId × HttpConnection Wire)
pooled = (a, conn_of a) ∷ []

entered : Step wire fresh (service [] (record { count = 1; idling = false; closing = false }))
unfolding read_enter
entered = enter fresh (record { count = 1; idling = false; closing = false }) refl

given :
    Step wire
      (service [] (record { count = 1; idling = false; closing = false }))
      (service pooled (record { count = 1; idling = false; closing = false }))
unfolding put_conn lookup
given =
    give (service [] (record { count = 1; idling = false; closing = false })) (conn_of a)
      (omega arith)

abbrev closing_lock : ClientLock
closing_lock = record { count = 1; idling = false; closing = true }

begun :
    Step wire
      (service pooled (record { count = 1; idling = false; closing = false }))
      (service pooled closing_lock)
unfolding close_enter
begun = begin_close (service pooled (record { count = 1; idling = false; closing = false }))

abbrev closed_lock : ClientLock
closed_lock = record { count = 0; idling = true; closing = true }

left : Step wire (service pooled closing_lock) (service pooled closed_lock)
unfolding read_exit
left = leave (service pooled closing_lock) (omega arith)

abbrev final : Service Wire
final = record { client = client [] closed_lock; drained = true }

emptied : Step wire (service pooled closed_lock) final
unfolding close_client
emptied = drain (service pooled closed_lock) refl refl

Reach-closing_lock : Reach wire fresh (service pooled closing_lock)
Reach-closing_lock = next (next (next here entered) given) begun

drained-final_example :
    (final.client.lock.count ≡ 0)
    × (final.client.conns ≡ [])
    × ((read_enter final.client.lock).0 ≡ raise runtime_error)
drained-final_example =
    drained-final wire fresh-IsNew (next (next Reach-closing_lock left) emptied) refl

close-finishes_example :
    ((read_enter (service pooled closing_lock).client.lock).0 ≡ raise runtime_error)
    × ((u : Service Wire) × Leaving wire 1 (service pooled closing_lock) u
        × Step wire u (record { client = (close_client wire u.client).1; drained = true }))
close-finishes_example = close-finishes wire fresh-IsNew Reach-closing_lock refl

-- A connection is taken, put back, and put back once more.
abbrev pool_ops : List (PoolOp Wire)
pool_ops = take_conn a ∷ give_conn (conn_of a) ∷ give_conn (conn_of a) ∷ take_conn b ∷ []

run-replay_example :
    ((run wire pool_ops with_a).0 ≡ (replay wire with_a pool_ops (view wire with_a)).0)
    × (view wire (run wire pool_ops with_a).1 ≡ (replay wire with_a pool_ops (view wire with_a)).1)
run-replay_example = run-replay wire with_a pool_ops
