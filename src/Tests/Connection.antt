-- ===== src/Tests/Connection.antt =====
-- The theorems of Connection and its modules on the exchanges of one connection.
use hiyori.Prelude.{
  ◌≡◌, refl, ◌≤◌, Bool, true, false, Option, none, some, [], ◌∷◌, length, Str, codes, pos, arith,
  Lacks,
}
use hiyori.Outcome.{ok, raise}
use hiyori.Exceptions.{connection_closed, runtime_error, unbound_local}
use hiyori.Decimal.{decimal}
use hiyori.Bodies.{bytes_body}
use hiyori.Body
use hiyori.Body.{of_bytes, custom, empty}
use hiyori.Messages.{
  http, https, v1_1, method_get, method_post, HttpConnectionId, HttpScheme, PendingRequest,
  Response,
}
use hiyori.Connection.Id.{hostname, port, default_port, hostname-port}
use hiyori.Connection.Object.{HttpConnection, Dial}
use hiyori.Connection.Send.{Exchange, send_request, write_body}
use hiyori.Connection.Limits.{send_request-body-le}
use hiyori.Connection.Failures.{send_request-closing, send_request-unknown_length}
use hiyori.Connection.Translation.{IsSettled, send_request-IsSettled}
use hiyori.Connection.Writes.{Written, write_body-Written}
use hiyori.Prelude.{split_once, codes}
use hiyori.Exec.{◌>>=◌, attempt}
use hiyori.Bodies
use hiyori.Bodies.{BytesRequestBody, RequestBody, io_seek_set, io_read}
use hiyori.Bodies.Laws.{remaining, read-Reads}
use hiyori.Decimal.{digits}
use hiyori.Messages
use hiyori.Messages.{uri_of}
use hiyori.Connection.Id.{port_of}
use hiyori.Connection.Object.{
  get_ready, cancel_idle_timeout, is_connected, connect, set_idle_timeout,
}
use hiyori.Connection.Send.{
  on_conn, frame, on_body, measured, set_header, converse, request_uri, on_protocol, at_eof,
  collect, read_body, at_finish, translate,
}
use hiyori.Connection.Writes.{IsWriter}
use hiyori.Tests.Dict.{assoc_dict}
use hiyori.Tests.Wire.{Headers, Wire, wire, TestBody, bodies, answering, head_of}

abbrev localhost : Str
localhost = codes "localhost"

localhost-Lacks : Lacks b':' localhost
localhost-Lacks = ground arith

abbrev id : HttpConnectionId
id = record { authority = localhost; scheme = http; http_version = v1_1 }

abbrev conn : Option Wire → Bool → HttpConnection Wire
conn protocol closing = record {
  conn_id = id;
  max_initial_size = 65536;
  chunk_size = 4;
  tls = false;
  idle_timeout = 10;
  idle_timer = true;
  protocol = protocol;
  closing = closing;
}

abbrev request : {B : Type 0} → B → PendingRequest Headers B
request body = record {
  method = method_post;
  version = v1_1;
  authority = localhost;
  scheme = http;
  path = codes "/";
  path_args = [];
  headers = [];
  cached_uri = none;
  body = body;
}

abbrev exchange : {B : Type 0} → Option Wire → Bool → B → Exchange Wire Headers B
exchange protocol closing body = record { conn = conn protocol closing; request = request body }

abbrev hello : TestBody
hello = of_bytes (bytes_body (codes "hello world"))

abbrev dial : Dial Wire
dial host port tls = ok (answering (head_of 200 [] ∷ []) (codes "short"))

-- a host that cannot be reached
abbrev no_answer : Dial Wire
no_answer host port tls = ok (answering [] [])

abbrev id_of : HttpScheme → Str → HttpConnectionId
id_of scheme authority = record { authority = authority; scheme = scheme; http_version = v1_1 }

hostname-port_example :
    ((scheme : HttpScheme)
      → (hostname (id_of scheme (codes "localhost:8443")) ≡ localhost)
        × (port (id_of scheme (codes "localhost:8443")) ≡ ok (pos 8443))
        × (hostname (id_of scheme localhost) ≡ localhost))
    × (port (id_of http localhost) ≡ ok (pos 80))
    × (port (id_of https localhost) ≡ ok (pos 443))
unfolding decimal
hostname-port_example = hostname-port v1_1 localhost 8443 localhost-Lacks

test_send_request_closing : send_request wire bodies dial 20 true 10 (exchange none true hello) ≡ (
  raise runtime_error,
  record (exchange none true hello) { conn = record (conn none true) { idle_timer = false } },
)
test_send_request_closing =
    send_request-closing wire bodies dial 20 true 10 (exchange none true hello) refl

abbrev silent : Wire
silent = answering [] []

abbrev unknown : Exchange Wire Headers TestBody
unknown = exchange (some silent) false (custom tt)

test_send_request-unknown_length :
    ((send_request wire bodies dial 20 true 10 unknown).0 ≡ raise unbound_local)
    × ((send_request wire bodies dial 20 true 10 unknown).1.conn.protocol ≡ some silent)
unfolding Body.calc_len
test_send_request-unknown_length =
    send_request-unknown_length wire bodies dial 20 true 10 unknown silent refl refl refl refl refl

abbrev answered_wire : Wire
answered_wire = answering (head_of 200 [] ∷ []) (codes "short")

abbrev reply : Response Headers
reply = record {
  request = record {
    method = method_post;
    uri = codes "/";
    authority = localhost;
    headers = (codes "host", localhost) ∷ (codes "content-length", codes "11") ∷ [];
  };
  status_code = 200;
  headers = [];
  body = codes "short";
}

test_send_request :
    (send_request wire bodies dial 20 true 10 (exchange none false hello)).0 ≡ ok reply
unfolding send_request on_conn get_ready cancel_idle_timeout is_connected connect port hostname
    split_once port_of default_port frame on_body Body.calc_len Bodies.calc_len bytes_body
    io_seek_set decimal digits measured set_header converse request_uri Messages.uri uri_of
    on_protocol write_body Body.read Bodies.read io_read at_eof collect read_body at_finish
    translate set_idle_timeout ◌>>=◌ attempt
test_send_request = refl

send_request-body-le_example : length (codes "short") ≤ 10
send_request-body-le_example =
    send_request-body-le wire bodies dial 20 10 true (exchange none false hello) {r = reply}
      test_send_request

abbrev bytes_class : RequestBody BytesRequestBody
bytes_class = record {
  calc_len = Bodies.calc_len;
  seek_front = Bodies.seek_front;
  read = Bodies.read;
}

abbrev of_hello : Exchange Wire Headers BytesRequestBody
of_hello = exchange none false (bytes_body (codes "hello world"))

is_writer : IsWriter wire (λ w. w.sent)
is_writer = record { appends = λ chunk w e. refl; keeps = λ w. refl }

-- the server goes away before it has answered_wire
test_send_request-aborted :
    (send_request wire bytes_class no_answer 20 true 10 of_hello).0 ≡ raise connection_closed
unfolding send_request on_conn get_ready cancel_idle_timeout is_connected connect port hostname
    split_once port_of default_port frame on_body Body.calc_len Bodies.calc_len bytes_body
    io_seek_set decimal digits measured set_header converse request_uri Messages.uri uri_of
    on_protocol write_body Body.read Bodies.read io_read at_eof collect read_body at_finish
    translate set_idle_timeout ◌>>=◌ attempt
test_send_request-aborted = refl

send_request-IsSettled_example : IsSettled connection_closed
unfolding Bodies.calc_len
send_request-IsSettled_example =
    send_request-IsSettled wire bytes_class no_answer (λ host port tls. tt) (λ b. tt) 20 10 true
      of_hello test_send_request-aborted

abbrev connected_hello : Exchange Wire Headers BytesRequestBody
connected_hello = exchange (some answered_wire) false (bytes_body (codes "hello world"))

write_body-Written_example :
    Written wire bytes_class
      (λ w. w.sent)
      is_writer
      remaining
      read-Reads
      answered_wire
      (codes "hello world")
      (write_body wire bytes_class 12 connected_hello)
unfolding bytes_body
write_body-Written_example =
    write_body-Written wire bytes_class (λ w. w.sent) is_writer remaining read-Reads 12
      connected_hello answered_wire refl (omega arith) (omega arith)
