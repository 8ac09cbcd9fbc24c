-- ===== src/Client/Send.antt =====
-- HttpClient.send_request of hiyori/http_client.py without redirection. The exchange on a connection
-- and what other tasks do to the client while it runs are arguments.
use hiyori.Prelude.{ℕ, Bool, true, ◌&&◌, Option, none, some, leb, if◌then◌else◌}
use hiyori.Outcome.{Outcome, ok, raise}
use hiyori.Exceptions.{Error, request_timeout, timeout_error, deadline, is_exception}
use hiyori.Messages
use hiyori.Messages.{PendingRequest, Response}
use hiyori.Connection.Http.{HttpProtocol}
use hiyori.Connection.Object.{HttpConnection}
use hiyori.Connection.Send.{Exchange}
use hiyori.Client.Lock.{read_enter, read_exit}
use hiyori.Client.Pool.{HttpClient, get_conn, put_conn, shut}
use hiyori.Client.Errors.{ClientError, lower, http_error}

-- The keyword arguments of `send_request`, but for the timeout, which shows as the exception `deadline`
-- of an exchange.
pub record Options : Type 0 where
  pub read_response_body : Bool
  pub max_body_size : Option ℕ
  pub raise_error : Option Bool

-- `x if x is not None else default`
abbrev pub or_default : {A : Type 0} → A → Option A → A
or_default default none = default
or_default default (some x) = x

-- What the `except` clauses raise: the deadline of `wait_for` is a RequestTimeout.
unfoldable pub except_clause : Error → Error
except_clause deadline = request_timeout
except_clause timeout_error = request_timeout
except_clause e = e

-- Whether one of them is taken, and closes the connection. Cancellation is no Exception.
unfoldable pub is_caught : Error → Bool
unfolding is_exception
is_caught deadline = true
is_caught e = is_exception e

-- The client, the request, and the connection that the call has got, if it got one.
pub record Sending (P H B : Type 0) : Type 0 where
  pub client : HttpClient P
  pub request : PendingRequest H B
  pub conn : Option (HttpConnection P)

module _ {P H B : Type 0} (http : HttpProtocol P H)
    (exchange : Bool → ℕ → Exchange P H B → Outcome Error (Response H) × Exchange P H B)
    (others : HttpClient P → HttpClient P) where
  -- `if _raise_error and response.status_code >= 400: raise HttpError(response)`
  unfoldable pub check_status : Bool → Response H → Outcome (ClientError H) (Response H)
  check_status raise_error response =
      if raise_error && leb 400 response.status_code
      then raise (http_error response)
      else ok response

  -- after the exchange, with the connection and the request as it left them
  unfoldable pub settle :
      Options
      → Bool
      → Outcome Error (Response H)
      → Exchange P H B
      → HttpClient P
      → Outcome (ClientError H) (Response H) × Sending P H B
  unfolding except_clause is_caught shut put_conn check_status
  settle options raise_error (raise e) s c = (
    raise (lower (except_clause e)),
    record {
      client = c;
      request = s.request;
      conn = some (if is_caught e then shut http s.conn else s.conn);
    },
  )
  settle options raise_error (ok response) s c =
      let (conn, c') = if options.read_response_body then put_conn http s.conn c else (s.conn, c) in
      (
        check_status raise_error response,
        record { client = c'; request = s.request; conn = some conn },
      )

  -- the body of `async with self._lock.read_lock`
  unfoldable pub inside :
      Options
      → PendingRequest H B
      → HttpClient P
      → Outcome (ClientError H) (Response H) × Sending P H B
  unfolding get_conn settle
  inside options request c =
      let raise_error = or_default c.raise_error options.raise_error in
      let (conn, c₁) = get_conn http (Messages.conn_id request) c in
      let (r, s) =
        exchange options.read_response_body (or_default c.max_body_size options.max_body_size)
          (record { conn = conn; request = request }) in
      settle options raise_error r s (others c₁)

  unfoldable pub send_once :
      Options
      → PendingRequest H B
      → HttpClient P
      → Outcome (ClientError H) (Response H) × Sending P H B
  unfolding read_enter inside read_exit
  send_once options request c =
      let (entered, l) = read_enter c.lock in
      elim entered [
        | raise e ↦ (raise (lower e), record { client = c; request = request; conn = none })
        | ok _ ↦
            let (r, s) = inside options request (record c { lock = l }) in
            (r, record s { client = record s.client { lock = read_exit s.client.lock } })
      ]
