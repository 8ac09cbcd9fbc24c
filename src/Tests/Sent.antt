-- ===== src/Tests/Sent.antt =====
-- Bodies as they are sent: Body/Sent at a form of two fields and at a number.
use hiyori.Prelude.{
  ℕ, ◌<◌, ◌≡◌, some, List, [], ◌∷◌, concat, length, ◌=s=◌, if◌then◌else◌, Str, Bytes, codes, encode,
  arith,
}
use hiyori.Outcome.{Outcome, ok, raise, ◌>>=◌}
use hiyori.Exceptions.{Error, value_error}
use hiyori.Utf8.{to_str, to_json}
use hiyori.Url.{urlencode}
use hiyori.Url.Query.{parse_qsl}
use hiyori.Bodies.{BytesRequestBody}
use hiyori.Bodies.Laws.{bytes_stream}
use hiyori.Stream.Drain.{drain}
use hiyori.Body.{url_encoded_body, json_body}
use hiyori.Body.Sent.{url_encoded_body-parse_qsl, json_body-to_json}

abbrev fields : List (Str × Str)
fields = (codes "a b", codes "1&2") ∷ (codes "c", []) ∷ []

fields_small : length (encode (urlencode fields)) < 40
unfolding encode urlencode
fields_small = ground arith

url_encoded_body-parse_qsl_example :
    (pieces : List Bytes) × (b : BytesRequestBody) × (drain bytes_stream 40 5
        (url_encoded_body fields)
      ≡ some (pieces, b))
    × ((to_str (concat pieces) >>= λ s. ok (parse_qsl s)) ≡ ok ((codes "a b", codes "1&2") ∷ []))
url_encoded_body-parse_qsl_example =
    url_encoded_body-parse_qsl 40 5 fields (omega arith) fields_small (ground arith)

-- reads the text `7` and no other
abbrev loads_seven : Str → Outcome Error ℕ
loads_seven s = if s =s= codes "7" then ok 7 else raise value_error

seven_small : length (encode (codes "7")) < 5
unfolding encode
seven_small = ground arith

test_json_body :
    (pieces : List Bytes) × (b : BytesRequestBody) × (drain bytes_stream 5 2 (json_body (codes "7"))
      ≡ some (pieces, b))
    × (to_json loads_seven (concat pieces) ≡ ok 7)
unfolding ◌=s=◌
test_json_body =
    json_body-to_json loads_seven 5 2 (codes "7") (omega arith) seven_small (ground arith)
