-- ===== src/Tests/Tasks.antt =====
-- Two tasks and a timer: the theorems of Client/Store, and a timer that is due before an exchange begins.
use hiyori.Prelude.{ℕ, ◌≡◌, ◌≢◌, refl, true, false, some, [], ◌∷◌, ◌=s=◌}
use hiyori.Outcome.{raise}
use hiyori.Exceptions.{runtime_error}
use hiyori.Exec.{◌>>=◌}
use hiyori.Messages.{HttpConnectionId}
use hiyori.Connection.Object.{close, cancel_idle_timeout}
use hiyori.Connection.Send.{send_request}
use hiyori.Client.Pool.{same_id, HttpClient, lookup}
use hiyori.Client.Functions.{default_client}
use hiyori.Client.Store.{write, allocate, get_ref}
use hiyori.Client.Store.Tasks.{
  outside, waiting, sending, conn_of, fired, moved, World, take, begin, fire, Reach, here, next,
  IsNew,
}
use hiyori.Client.Store.Exclusive.{Reach-exclusive, Meanwhile, stay, go_on, Meanwhile-objects}
use hiyori.Tests.Dict.{assoc_dict}
use hiyori.Tests.Client
use hiyori.Tests.Redirection
use hiyori.Tests.Client.{a}
use hiyori.Tests.Wire.{Wire, wire, bodies}

abbrev settings : HttpClient Wire
settings = default_client

abbrev empty_world : World Wire
empty_world = record {
  store = record { objects = λ r. Client.conn_of a; fresh = 0; refs = [] };
  tasks = λ i. outside;
}

empty_world-IsNew : IsNew empty_world
empty_world-IsNew = record { unpooled = refl; idle = λ i. refl }

-- Task 0 takes a connection and begins an exchange, and so does task 1.
abbrev taken : World Wire
taken =
    moved wire bodies settings 0 (waiting 0) (get_ref wire settings a empty_world.store).1
      empty_world

abbrev begun : ℕ → World Wire → World Wire
begun i w =
    moved wire bodies settings i (sending i)
      (write i (cancel_idle_timeout (w.store.objects i)) w.store) w

abbrev both_taken : World Wire
both_taken =
    moved wire bodies settings 1 (waiting 1) (get_ref wire settings a (begun 0 taken).store).1
      (begun 0 taken)

abbrev both_begun : World Wire
both_begun = begun 1 both_taken

begun_reached : Reach wire bodies settings empty_world (begun 0 taken)
unfolding get_ref lookup allocate
begun_reached = next (next here (take 0 a refl)) (begin 0 0 refl)

both_reached : Reach wire bodies settings empty_world both_begun
unfolding get_ref lookup allocate
both_reached = next (next begun_reached (take 1 a refl)) (begin 1 1 refl)

Reach-exclusive_example :
    ((i j r : ℕ)
      → conn_of (both_begun.tasks i) ≡ some r
      → conn_of (both_begun.tasks j) ≡ some r
      → i ≡ j)
    × ((i r : ℕ) (id : HttpConnectionId)
        → conn_of (both_begun.tasks i) ≡ some r
        → lookup id both_begun.store.refs ≢ some r)
    × ((i r : ℕ) → both_begun.tasks i ≡ sending r → (both_begun.store.objects r).idle_timer ≡ false)
Reach-exclusive_example = Reach-exclusive wire bodies settings empty_world-IsNew both_reached

-- what task 1 does while task 0 is at its exchange
meanwhile : Meanwhile wire bodies settings 0 0 (begun 0 taken) both_begun
unfolding get_ref lookup allocate
meanwhile = go_on (go_on (stay refl) (take 1 a refl) refl) (begin 1 1 refl) refl

Meanwhile-objects_example : both_begun.store.objects 0 ≡ (begun 0 taken).store.objects 0
Meanwhile-objects_example =
    Meanwhile-objects wire bodies settings empty_world-IsNew begun_reached meanwhile

-- The pool has an open connection with its timer running.
abbrev pooled : World Wire
pooled = record {
  store = record { objects = λ r. Client.conn_of a; fresh = 1; refs = (a, 0) ∷ [] };
  tasks = λ i. outside;
}

abbrev reused : World Wire
reused = moved wire bodies settings 0 (waiting 0) (get_ref wire settings a pooled.store).1 pooled

abbrev timed_out : World Wire
timed_out = record reused { store = write 0 (fired wire (reused.store.objects 0)) reused.store }

-- The timer is due after `_get_conn` has handed the connection out and before `get_ready` stops it: the
-- exchange then raises RuntimeError.
test_timer :
    Reach wire bodies settings pooled (begun 0 timed_out)
    × ((send_request wire bodies Redirection.dial 5 true 10
          (record { conn = (begun 0 timed_out).store.objects 0; request = Redirection.request })).0
        ≡ raise runtime_error)
unfolding get_ref lookup ◌=s=◌ same_id close send_request ◌>>=◌
test_timer = (next (next (next here (take 0 a refl)) (fire 0 refl)) (begin 0 0 refl), refl)
