-- ===== src/Body.antt =====
-- The bodies that a request of the client may have, one constructor for each class: those of
-- hiyori/bodies.py and hiyori/multipart.py, and a class `C` that the user derives from
-- BaseRequestBody.
pub mod Sent
use hiyori.Prelude.{ℕ, List, Str, Bytes, encode}
use hiyori.Outcome.{Outcome, ok, raise}
use hiyori.Exceptions.{Error, eof_error}
use hiyori.Headers.{HeaderDict}
use hiyori.Bodies
use hiyori.Bodies.{BytesRequestBody, RequestBody, bytes_body}
use hiyori.Url.{urlencode}
use hiyori.Multipart.Form
use hiyori.Multipart.Form.{MultipartRequestBody}

pub data Body (H C : Type 0) : Type 0 where
  -- BytesRequestBody, UrlEncodedRequestBody and JsonRequestBody
  of_bytes : BytesRequestBody → Body H C
  -- EMPTY_REQUEST_BODY
  empty : Body H C
  of_form : MultipartRequestBody H → Body H C
  custom : C → Body H C

-- UrlEncodedRequestBody(map)
unfoldable pub url_encoded_body : List (Str × Str) → BytesRequestBody
unfolding bytes_body urlencode encode
url_encoded_body map = bytes_body (encode (urlencode map))

-- JsonRequestBody(json_obj), for the text that `json.dumps` gives
unfoldable pub json_body : Str → BytesRequestBody
unfolding bytes_body encode
json_body text = bytes_body (encode text)

-- the methods of _EmptyRequestBody
unfoldable pub empty_calc_len : Outcome Error ℕ
empty_calc_len = ok 0

unfoldable pub empty_seek_front : Outcome Error (Unit {0})
empty_seek_front = ok tt

unfoldable pub empty_read : ℕ → Outcome Error Bytes
empty_read n = raise eof_error

module _ {H C : Type 0} ⦃d : HeaderDict H⦄ (class : RequestBody C) where
  unfoldable pub calc_len : Body H C → Outcome Error ℕ × Body H C
  unfolding empty_calc_len Bodies.calc_len Form.calc_len
  calc_len (of_bytes b) = let (r, b') = Bodies.calc_len b in (r, of_bytes b')
  calc_len empty = (empty_calc_len, empty)
  calc_len (of_form m) = let (r, m') = Form.calc_len m in (r, of_form m')
  calc_len (custom c) = let (r, c') = class.calc_len c in (r, custom c')

  unfoldable pub seek_front : Body H C → Outcome Error (Unit {0}) × Body H C
  unfolding empty_seek_front Bodies.seek_front Form.seek_front
  seek_front (of_bytes b) = let (r, b') = Bodies.seek_front b in (r, of_bytes b')
  seek_front empty = (empty_seek_front, empty)
  seek_front (of_form m) = let (r, m') = Form.seek_front m in (r, of_form m')
  seek_front (custom c) = let (r, c') = class.seek_front c in (r, custom c')

  unfoldable pub read : ℕ → Body H C → Outcome Error Bytes × Body H C
  unfolding empty_read Bodies.read Form.read
  read n (of_bytes b) = let (r, b') = Bodies.read n b in (r, of_bytes b')
  read n empty = (empty_read n, empty)
  read n (of_form m) = let (r, m') = Form.read n m in (r, of_form m')
  read n (custom c) = let (r, c') = class.read n c in (r, custom c')

  abbrev pub body_class : RequestBody (Body H C)
  body_class = record { calc_len = calc_len; seek_front = seek_front; read = read }
