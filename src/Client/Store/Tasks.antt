-- ===== src/Client/Store/Tasks.antt =====
-- Tasks that send requests through one client of hiyori/http_client.py, interleaved with each other, with
-- the idle timers of the connections (hiyori/connection.py) and with `close`. A task is numbered. In
-- `send_request` it takes a connection from `_get_conn`; the exchange on it begins in `get_ready`, which
-- stops the timer, and ends with an answer or an exception; then the task gives the connection back, closes
-- it, or leaves it to the reader of the response. Each of these is a step, and between two of them
-- anything else may happen.
use hiyori.Prelude.{ℕ, ◌≡◌, Bool, true, false, Option, none, some, []}
use hiyori.Headers.{HeaderDict}
use hiyori.Bodies.{RequestBody}
use hiyori.Messages.{HttpConnectionId, PendingRequest}
use hiyori.Connection.Http.{HttpProtocol}
use hiyori.Connection.Object.{HttpConnection, Dial, close, cancel_idle_timeout}
use hiyori.Connection.Send.{send_request}
use hiyori.Client.Pool.{HttpClient}
use hiyori.Client.Store.{Store, assign, write, get_ref, put_ref, shut_ref, close_refs}

-- Where a task is, with the connection that it has.
pub data Task : Type 0 where
  outside : Task
  waiting sending ended : ℕ → Task

abbrev pub conn_of : Task → Option ℕ
conn_of outside = none
conn_of (waiting r) = some r
conn_of (sending r) = some r
conn_of (ended r) = some r

pub record World (P : Type 0) : Type 0 where
  pub store : Store P
  pub tasks : ℕ → Task

-- `loop.call_later(self._idle_timeout, self.close)`, when it is due
abbrev pub fired : {P H : Type 0} → HttpProtocol P H → HttpConnection P → HttpConnection P
fired http conn = close http (record conn { idle_timer = false })

module _ {P H B : Type 0} ⦃d : HeaderDict H⦄ (http : HttpProtocol P H) (body : RequestBody B)
    (c : HttpClient P) where
  abbrev pub moved : ℕ → Task → Store P → World P → World P
  moved i task store w = record { store = store; tasks = assign w.tasks i task }

  pub data Step (w : World P) : World P → Type 0 where
    take :
        (i : ℕ) (id : HttpConnectionId)
        → w.tasks i ≡ outside
        → Step w (moved i (waiting (get_ref http c id w.store).0) (get_ref http c id w.store).1 w)
    begin :
        (i r : ℕ)
        → w.tasks i ≡ waiting r
        → Step w (moved i (sending r) (write r (cancel_idle_timeout (w.store.objects r)) w.store) w)
    finish :
        (i r : ℕ) (dial : Dial P) (fuel : ℕ) (read_response_body : Bool) (max_body_size : ℕ)
        (request : PendingRequest H B)
        → w.tasks i ≡ sending r
        → Step w (
            moved i
              (ended r)
              (write r
                (send_request http body dial fuel read_response_body max_body_size
                  (record { conn = w.store.objects r; request = request })).1.conn
                w.store)
              w)
    give : (i r : ℕ) → w.tasks i ≡ ended r → Step w (moved i outside (put_ref http c r w.store) w)
    shut : (i r : ℕ) → w.tasks i ≡ ended r → Step w (moved i outside (shut_ref http c r w.store) w)
    -- The response keeps the connection, or the task is cancelled.
    leave : (i r : ℕ) → conn_of (w.tasks i) ≡ some r → Step w (moved i outside w.store w)
    fire :
        (r : ℕ)
        → (w.store.objects r).idle_timer ≡ true
        → Step w (record w { store = write r (fired http (w.store.objects r)) w.store })
    close_pool : Step w (record w { store = close_refs http c w.store })

  pub data Reach (w : World P) : World P → Type 0 where
    here : Reach w w
    next : {v u : World P} → Reach w v → Step v u → Reach w u

-- A client as it is constructed, and no task inside.
pub record IsNew {P : Type 0} (w : World P) : Type 0 where
  pub unpooled : w.store.refs ≡ []
  pub idle : (i : ℕ) → w.tasks i ≡ outside
