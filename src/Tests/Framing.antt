-- ===== src/Tests/Framing.antt =====
-- A request and its frame, on a line that answers every request.
use hiyori.Prelude.{
  ◌≡◌, refl, true, false, Option, none, some, [], ◌∷◌, ◌++◌, length, map, Str, Bytes, codes,
  to_lower, ◌=s=◌, =s=_refl, Bool-cases, inl, inr, split_once, arith,
}
use hiyori.Outcome.{ok, raise}
use hiyori.Exceptions.{read_finished}
use hiyori.Exec.{◌>>=◌, attempt}
use hiyori.Bodies
use hiyori.Bodies.{BytesRequestBody, RequestBody, bytes_body, io_seek_set, io_read}
use hiyori.Bodies.Laws.{remaining, read-Reads}
use hiyori.Decimal.{decimal, digits}
use hiyori.Messages
use hiyori.Messages.{PendingRequest, Response, method_post, v1_1, http, uri_of}
use hiyori.Connection.Id.{port, hostname, port_of, default_port}
use hiyori.Connection.Http.{HttpProtocol}
use hiyori.Connection.Object.{
  HttpConnection, Dial, get_ready, cancel_idle_timeout, is_connected, connect, set_idle_timeout,
}
use hiyori.Connection.Send.{
  Exchange, send_request, on_conn, frame, on_body, measured, set_header, converse, request_uri,
  on_protocol, at_eof, write_body, collect, read_body, at_finish, translate,
}
use hiyori.Connection.Framing.{IsSender, Framed}
use hiyori.Connection.Framing.Sent.{send_request-Framed}
use hiyori.Tests.Dict.{assoc_dict, contains, get?, set, same_name}
use hiyori.Tests.Wire.{Headers, head_of}

pub record Line : Type 0 where
  pub head : Option Headers
  pub sent : Bytes

abbrev pub line : HttpProtocol Line Headers
line = record {
  is_closing = λ p. false;
  write_request =
      λ method uri authority headers p. (ok tt, record { head = some headers; sent = [] });
  request_headers = λ p. elim p.head [ none ↦ [] | some headers ↦ headers ];
  write = λ chunk p. (ok tt, record p { sent = p.sent ++ chunk });
  flush = λ p. (ok tt, p);
  finish = λ p. (ok tt, p);
  read_response = λ p. (ok (head_of 200 []), p);
  read = λ n p. (raise read_finished, p);
  abort = λ p. p;
  close = λ p. p;
  wait_closed = λ p. p;
}

pub is_sender : IsSender line (λ p. p.head) (λ p. p.sent)
is_sender = record {
  writer = record { appends = λ chunk p e. refl; keeps = λ p. refl };
  begins = λ method uri authority headers p e. (refl, refl);
  write_head = λ chunk p. refl;
  flush_head = λ p. refl;
  finish_head = λ p. refl;
  finish_sent = λ p. refl;
  response_head = λ p. refl;
  response_sent = λ p. refl;
  read_head = λ n p. refl;
  read_sent = λ n p. refl;
  abort_head = λ p. refl;
  abort_sent = λ p. refl;
  close_head = λ p. refl;
  close_sent = λ p. refl;
}

get?-set : (name value : Str) (h : Headers) → get? name (set name value h) ≡ some value
get?-set name value [] = rw (=s=_refl (map to_lower name)) refl
get?-set name value ((k, v) ∷ rest) = elim (Bool-cases (same_name name k)) [
  | inl same ↦ rw (same, =s=_refl (map to_lower name)) refl
  | inr other ↦ rw (other, other) (get?-set name value rest)
]

pub setdefault_get :
    (name value : Str) (h : Headers)
    → contains name h ≡ false
    → get? name (assoc_dict.setdefault name value h) ≡ some value
setdefault_get name value h free = rw free (get?-set name value h)

abbrev bytes_class : RequestBody BytesRequestBody
bytes_class = record {
  calc_len = Bodies.calc_len;
  seek_front = Bodies.seek_front;
  read = Bodies.read;
}

abbrev post : BytesRequestBody → Headers → PendingRequest Headers BytesRequestBody
post body headers = record {
  method = method_post;
  version = v1_1;
  authority = codes "localhost";
  scheme = http;
  path = codes "/";
  path_args = [];
  headers = headers;
  cached_uri = none;
  body = body;
}

abbrev pub conn : Option Line → HttpConnection Line
conn protocol = record {
  conn_id = record { authority = codes "localhost"; scheme = http; http_version = v1_1 };
  max_initial_size = 65536;
  chunk_size = 4;
  tls = false;
  idle_timeout = 10;
  idle_timer = true;
  protocol = protocol;
  closing = false;
}

abbrev pub dial : Dial Line
dial host port tls = ok (record { head = none; sent = codes "of before" })

abbrev hello : Exchange Line Headers BytesRequestBody
hello = record { conn = conn none; request = post (bytes_body (codes "hello")) [] }

abbrev after_hello : Exchange Line Headers BytesRequestBody
after_hello = (send_request line bytes_class dial 20 true 10 hello).1

abbrev reply : Response Headers
reply = record {
  request = record {
    method = method_post;
    uri = codes "/";
    authority = codes "localhost";
    headers = (codes "content-length", codes "5") ∷ [];
  };
  status_code = 200;
  headers = [];
  body = [];
}

answered : send_request line bytes_class dial 20 true 10 hello ≡ (ok reply, after_hello)
unfolding send_request on_conn get_ready cancel_idle_timeout is_connected connect port hostname
    split_once port_of default_port frame on_body Bodies.calc_len bytes_body io_seek_set decimal
    digits measured set_header converse request_uri Messages.uri uri_of on_protocol write_body
    Bodies.read io_read at_eof collect read_body at_finish translate set_idle_timeout ◌>>=◌ attempt
answered = refl

send_request-Framed_example :
    (p : Line) × (after_hello.conn.protocol ≡ some p)
    × (p.sent ≡ codes "hello")
    × ((h : Headers) × (p.head ≡ some h) × Framed (length p.sent) h)
unfolding Bodies.calc_len bytes_body io_seek_set
send_request-Framed_example =
    send_request-Framed line bytes_class is_sender remaining read-Reads setdefault_get dial 20 true
      10 hello after_hello reply (omega arith) refl (λ n e. cc) (omega arith) answered

-- The same request once more, as it is after the call, whose body is at its end: its length is
-- announced, and nothing is sent.
abbrev resent : Exchange Line Headers BytesRequestBody
resent = (send_request line bytes_class dial 20 true 10 after_hello).1

test_resent :
    resent.conn.protocol
    ≡ some (record { head = some ((codes "content-length", codes "5") ∷ []); sent = [] })
unfolding send_request on_conn get_ready cancel_idle_timeout is_connected connect port hostname
    split_once port_of default_port frame on_body Bodies.calc_len bytes_body io_seek_set decimal
    digits measured set_header converse request_uri Messages.uri uri_of on_protocol write_body
    Bodies.read io_read at_eof collect read_body at_finish translate set_idle_timeout ◌>>=◌ attempt
    ◌=s=◌ to_lower
test_resent = refl
