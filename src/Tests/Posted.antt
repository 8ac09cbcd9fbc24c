-- ===== src/Tests/Posted.antt =====
-- A form as the body of a request, on a line that answers every request.
use hiyori.Prelude.{
  ◌≡◌, refl, true, Option, none, some, List, [], ◌∷◌, length, ◌<◌, Str, codes, encode, starts_with,
  split_once, arith,
}
use hiyori.Outcome.{ok}
use hiyori.Exec.{◌>>=◌, attempt}
use hiyori.Bodies
use hiyori.Bodies.{bytes_body, io_seek_set, io_read}
use hiyori.Decimal.{decimal, digits}
use hiyori.Messages
use hiyori.Messages.{PendingRequest, Response, method_post, v1_1, http, uri_of}
use hiyori.Connection.Id.{port, hostname, port_of, default_port}
use hiyori.Connection.Object.{
  get_ready, cancel_idle_timeout, is_connected, connect, set_idle_timeout,
}
use hiyori.Connection.Send.{
  Exchange, send_request, on_conn, frame, on_body, measured, set_header, converse, request_uri,
  on_protocol, at_eof, write_body, collect, read_body, at_finish, translate,
}
use hiyori.Connection.Framing.{Framed}
use hiyori.Multipart.Field.{str_field}
use hiyori.Multipart.Form.{
  MultipartRequestBody, multipart_body, to_part, content_type, seek_front, seek_parts,
  part_seek_front, calc_len, calc_parts, part_calc_len, read, read_parts, part_read,
}
use hiyori.Multipart.Format.{form_bytes}
use hiyori.Multipart.Calls.{reading, after}
use hiyori.Multipart.Measured.{form_class}
use hiyori.Multipart.Reader.{read_form}
use hiyori.Multipart.Reader.Parts.{AllReadable, texts}
use hiyori.Multipart.Reader.Posted.{posted-read_form}
use hiyori.Tests.Dict.{assoc_dict}
use hiyori.Tests.Wire.{Headers}
use hiyori.Tests.Framing.{Line, line, is_sender, setdefault_get, conn, dial}

abbrev guess_nothing : Str → Option Str
guess_nothing _ = none

abbrev fields : List (Str × Str)
fields = (codes "a", codes "b") ∷ []

abbrev body : MultipartRequestBody Headers
body =
    (seek_front
      (after (reading 7 ∷ []) (multipart_body guess_nothing (codes "0") (texts Headers fields)))).1

abbrev posted : Exchange Line Headers (MultipartRequestBody Headers)
posted = record {
  conn = record (conn none) { chunk_size = 64 };
  request = record {
    method = method_post;
    version = v1_1;
    authority = codes "localhost";
    scheme = http;
    path = codes "/";
    path_args = [];
    headers = [];
    cached_uri = none;
    body = body;
  };
}

abbrev after_post : Exchange Line Headers (MultipartRequestBody Headers)
after_post = (send_request line form_class dial 200 true 10 posted).1

abbrev reply : Response Headers
reply = record {
  request = record {
    method = method_post;
    uri = codes "/";
    authority = codes "localhost";
    headers = (codes "content-length", codes "111") ∷ [];
  };
  status_code = 200;
  headers = [];
  body = [];
}

answered : send_request line form_class dial 200 true 10 posted ≡ (ok reply, after_post)
unfolding send_request on_conn get_ready cancel_idle_timeout is_connected connect port hostname
    split_once port_of default_port frame on_body Bodies.calc_len bytes_body io_seek_set decimal
    digits measured set_header converse request_uri Messages.uri uri_of on_protocol write_body
    Bodies.read io_read at_eof collect read_body at_finish translate set_idle_timeout ◌>>=◌ attempt
    calc_len calc_parts part_calc_len read read_parts part_read seek_front seek_parts
    part_seek_front after multipart_body to_part str_field encode Bodies.seek_front
answered = refl

fields-AllReadable : AllReadable (codes "0") fields
unfolding starts_with encode
fields-AllReadable = (
  record {
    name = ground arith;
    value = ground arith;
    unquoted = ground arith;
    one_line = ground arith;
    undelimited = ground arith;
  },
  tt,
)

short_enough : length (form_bytes guess_nothing (codes "0") (texts Headers fields)) < 200
unfolding encode
short_enough = omega arith

posted-read_form_example :
    (p : Line) × (after_post.conn.protocol ≡ some p)
    × (read_form
          (content_type (multipart_body guess_nothing (codes "0") (texts Headers fields)))
          p.sent
        ≡ ok fields)
    × ((h : Headers) × (p.head ≡ some h) × Framed (length p.sent) h)
posted-read_form_example =
    posted-read_form line is_sender setdefault_get guess_nothing (codes "0") fields (reading 7 ∷ [])
      dial 200 true 10 posted after_post reply refl (omega arith) refl short_enough (ground arith)
      fields-AllReadable answered
