-- ===== src/Connection/Send.antt =====
-- HttpConnection.send_request of hiyori/connection.py, with fuel for its two loops: one round for
-- each piece of the request body, and one for each piece of the response body.
use hiyori.Prelude.{
  ℕ, zero, suc, ◌+◌, ◌-◌, Bool, true, false, none, some, [], ◌++◌, length, ltb, Str, Bytes, codes,
  if◌then◌else◌,
}
use hiyori.Outcome.{Outcome, ok, raise}
use hiyori.Exceptions.{
  Error, bad_response, response_entity_too_large, connection_closed, eof_error, not_implemented,
  unbound_local, assertion_error, read_aborted, write_aborted, write_after_finished,
  received_data_malformed, entity_too_large, read_finished, still_running,
}
use hiyori.Exec.{Exec, attempt, ◌>>=◌, ◌>>◌, pure, throw, gets, modify}
use hiyori.Headers.{HeaderDict}
use hiyori.Bodies.{RequestBody}
use hiyori.Decimal.{decimal}
use hiyori.Messages
use hiyori.Messages.{PendingRequest, Request, Response, Initial}
use hiyori.Connection.Http.{HttpProtocol}
use hiyori.Connection.Object.{HttpConnection, Dial, get_ready, close, set_idle_timeout}

-- The objects that the call changes: the connection, and the request with its headers and body.
pub record Exchange (P H B : Type 0) : Type 0 where
  pub conn : HttpConnection P
  pub request : PendingRequest H B

-- the `except` clauses
unfoldable pub translate : Error → Error
translate read_aborted = connection_closed
translate write_aborted = connection_closed
translate write_after_finished = connection_closed
translate received_data_malformed = bad_response
translate entity_too_large = response_entity_too_large
translate e = e

-- `except EOFError: break`
unfoldable pub at_eof : {S : Type 0} → Error → Exec S (Unit {0})
at_eof eof_error = pure tt
at_eof e = throw e

-- `except magichttp.ReadFinishedError: res_body = bytes(body_buf)`
unfoldable pub at_finish : {S : Type 0} → Bytes → Error → Exec S Bytes
at_finish buf read_finished = pure buf
at_finish buf e = throw e

-- Response(Request(writer), reader=reader, body=res_body, conn=self)
abbrev pub response : {H : Type 0} → Request H → Initial H × Bytes → Response H
response request (initial, res_body) = record {
  request = request;
  status_code = initial.status_code;
  headers = initial.headers;
  body = res_body;
}

module _ {P H B : Type 0} ⦃d : HeaderDict H⦄ (http : HttpProtocol P H) (body : RequestBody B) where
  -- an operation of the protocol of the connection
  unfoldable pub on_protocol : {A : Type 0} → Exec P A → Exec (Exchange P H B) A
  on_protocol op s = elim s.conn.protocol [
    | none ↦ (raise assertion_error, s)
    | some p ↦ (let (r, p') = op p in (r, record s { conn = record s.conn { protocol = some p' } }))
  ]

  unfoldable pub on_conn : {A : Type 0} → Exec (HttpConnection P) A → Exec (Exchange P H B) A
  on_conn op s = let (r, c) = op s.conn in (r, record s { conn = c })

  -- an operation of the request's body
  unfoldable pub on_body : {A : Type 0} → (B → Outcome Error A × B) → Exec (Exchange P H B) A
  on_body op s =
      let (r, b) = op s.request.body in (r, record s { request = record s.request { body = b } })

  unfoldable pub set_header : (H → H) → Exec (Exchange P H B) (Unit {0})
  set_header f s =
      (ok tt, record s { request = record s.request { headers = f s.request.headers } })

  unfoldable pub request_uri : Exec (Exchange P H B) Str
  unfolding Messages.uri
  request_uri s = let (u, r) = Messages.uri s.request in (ok u, record s { request = r })

  -- Request(writer): the request as the writer of the protocol keeps it. Without a protocol there is no
  -- writer; `send_request` has asserted that there is one.
  unfoldable pub written : Exchange P H B → Request H
  unfolding Messages.uri
  written s = record {
    method = s.request.method;
    uri = (Messages.uri s.request).0;
    authority = s.request.authority;
    headers = elim s.conn.protocol [ none ↦ s.request.headers | some p ↦ http.request_headers p ];
  }

  -- `if body_len > 0: …`
  unfoldable pub measured : ℕ → Exec (Exchange P H B) (Unit {0})
  unfolding set_header
  measured zero = pure tt
  measured (suc k) = set_header (d.setdefault (codes "content-length") (decimal (suc k)))

  -- `body_len` is unbound after the `except` clause, and the test raises UnboundLocalError.
  unfoldable pub unmeasured : Error → Exec (Exchange P H B) (Unit {0})
  unfolding set_header
  unmeasured not_implemented = do
    set_header (d.setdefault (codes "transfer-encoding") (codes "chunked"))
    throw unbound_local
  unmeasured e = throw e

  -- the headers that frame the body
  unfoldable pub frame : Exec (Exchange P H B) (Unit {0})
  unfolding on_body measured unmeasured
  frame = do
    framed ← gets (λ s. d.contains (codes "content-length") s.request.headers)
    if framed then pure tt else attempt (on_body body.calc_len) measured unmeasured

  -- the loop that writes the body
  unfoldable pub write_body : ℕ → Exec (Exchange P H B) (Unit {0})
  unfolding on_body on_protocol at_eof
  write_body zero = throw still_running
  write_body (suc fuel) = do
    chunk_size ← gets (λ s. s.conn.chunk_size)
    attempt (on_body (body.read chunk_size))
        (λ chunk. on_protocol (http.write chunk) >> on_protocol http.flush >> write_body fuel)
        at_eof

  -- the loop that reads the body of the response into `body_buf`
  unfoldable pub read_body : ℕ → ℕ → Bytes → Exec (Exchange P H B) Bytes
  unfolding on_protocol at_finish
  read_body zero max_body_size buf = throw still_running
  read_body (suc fuel) max_body_size buf =
      attempt (on_protocol (http.read (max_body_size + 1 - length buf)))
        (λ chunk.
          if ltb max_body_size (length (buf ++ chunk))
          then on_protocol (λ p. (ok tt, http.abort p)) >> throw response_entity_too_large
          else read_body fuel max_body_size (buf ++ chunk))
        (at_finish buf)

  -- `if read_response_body: … else: …`
  unfoldable pub collect : ℕ → Bool → ℕ → Initial H → Exec (Exchange P H B) (Initial H × Bytes)
  unfolding read_body close
  collect fuel true max_body_size initial = do
    res_body ← read_body fuel max_body_size []
    pure (initial, res_body)
  collect fuel false max_body_size initial = do
    modify (λ s. record s { conn = close http s.conn })
    pure (initial, [])

  -- the body of the `try` statement: the head of the response, and its body
  unfoldable pub converse : ℕ → Bool → ℕ → Exec (Exchange P H B) (Initial H × Bytes)
  unfolding request_uri on_protocol write_body collect
  converse fuel read_response_body max_body_size = do
    uri ← request_uri
    request ← gets (λ s. s.request)
    on_protocol (http.write_request request.method uri request.authority request.headers)
    write_body fuel
    on_protocol http.finish
    initial ← on_protocol http.read_response
    collect fuel read_response_body max_body_size initial

  unfoldable pub send_request : Dial P → ℕ → Bool → ℕ → Exec (Exchange P H B) (Response H)
  unfolding on_conn get_ready frame converse set_idle_timeout written
  send_request dial fuel read_response_body max_body_size = do
    on_conn (get_ready http dial)
    on_protocol (λ p. (ok tt, p))
    frame
    answer ←
        attempt (converse fuel read_response_body max_body_size) pure (λ e. throw (translate e))
    modify (λ s. record s { conn = set_idle_timeout s.conn })
    request ← gets written
    pure (response request answer)
