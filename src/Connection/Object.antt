-- ===== src/Connection/Object.antt =====
-- HttpConnection of hiyori/connection.py, but for `send_request`. `lookup` and `connect_fastest` of
-- the resolver, whose protocol a connection takes over, are an argument of `get_ready`.
use hiyori.Prelude.{ℕ, Bool, true, false, not, Option, none, some, Str, ℤ, if◌then◌else◌}
use hiyori.Outcome.{Outcome}
use hiyori.Exceptions.{Error, runtime_error}
use hiyori.Exec.{Exec, ◌>>=◌, ◌>>◌, pure, throw, gets, modify}
use hiyori.Messages.{HttpConnectionId}
use hiyori.Connection.Id
use hiyori.Connection.Http.{HttpProtocol}

pub record HttpConnection (P : Type 0) : Type 0 where
  pub conn_id : HttpConnectionId
  pub max_initial_size : ℕ
  pub chunk_size : ℕ
  -- whether a TLS context is given
  pub tls : Bool
  pub idle_timeout : ℕ
  -- whether the timer runs that calls `close`
  pub idle_timer : Bool
  pub protocol : Option P
  -- the event `_closing`
  pub closing : Bool

-- How a protocol is had for a host and a port, with or without TLS.
abbrev pub Dial : Type 0 → Type 0
Dial P = Str → ℤ → Bool → Outcome Error P

module _ {P : Type 0} where
  unfoldable pub cancel_idle_timeout : HttpConnection P → HttpConnection P
  cancel_idle_timeout c = record c { idle_timer = false }

  unfoldable pub set_idle_timeout : HttpConnection P → HttpConnection P
  unfolding cancel_idle_timeout
  set_idle_timeout c = record (cancel_idle_timeout c) { idle_timer = true }

  -- HttpConnection(conn_id, …)
  unfoldable pub http_connection : HttpConnectionId → ℕ → ℕ → Bool → ℕ → HttpConnection P
  unfolding set_idle_timeout
  http_connection conn_id max_initial_size chunk_size tls idle_timeout = set_idle_timeout (record {
    conn_id = conn_id;
    max_initial_size = max_initial_size;
    chunk_size = chunk_size;
    tls = tls;
    idle_timeout = idle_timeout;
    idle_timer = false;
    protocol = none;
    closing = false;
  })

module _ {P H : Type 0} (http : HttpProtocol P H) where
  unfoldable pub close : HttpConnection P → HttpConnection P
  close c = elim c.protocol [
    | none ↦ record c { closing = true }
    | some p ↦ record c { closing = true; protocol = some (http.close p) }
  ]

  -- `wait_closed`, on a connection whose closing is under way
  unfoldable pub wait_closed : HttpConnection P → HttpConnection P
  wait_closed c = elim c.protocol [
    | none ↦ c
    | some p ↦ record c { protocol = some (http.wait_closed p) }
  ]

  -- `self._protocol is not None and not self._protocol.transport.is_closing()`
  unfoldable pub is_connected : HttpConnection P → Bool
  is_connected c = elim c.protocol [ none ↦ false | some p ↦ not (http.is_closing p) ]

  -- a new protocol, for the host and the port of the connection
  unfoldable pub connect : Dial P → Exec (HttpConnection P) (Unit {0})
  connect dial = do
    port ← λ c. (Id.port c.conn_id, c)
    protocol ← λ c. (dial (Id.hostname c.conn_id) port c.tls, c)
    modify (λ c. record c { protocol = some protocol })

  unfoldable pub get_ready : Dial P → Exec (HttpConnection P) (Unit {0})
  unfolding cancel_idle_timeout is_connected connect
  get_ready dial = do
    modify cancel_idle_timeout
    closing ← gets (λ c. c.closing)
    connected ← gets is_connected
    if closing then throw runtime_error else if connected then pure tt else connect dial
