-- ===== src/Body/Sent.antt =====
-- What a server reads of a UrlEncodedRequestBody or of a JsonRequestBody (hiyori/bodies.py).
use hiyori.Prelude.{ℕ, ◌<◌, ◌≡◌, ap, ◌∙◌, some, List, concat, length, arith, Str, Bytes, encode}
use hiyori.Outcome.{Outcome, ok, ◌>>=◌}
use hiyori.Exceptions.{Error}
use hiyori.Utf8.{to_str, to_json}
use hiyori.Utf8.RoundTrip.{IsText, to_str-encode}
use hiyori.Url.{urlencode}
use hiyori.Url.Query.{parse_qsl}
use hiyori.Url.Query.RoundTrip.{AreTexts, filled, parse_qsl-urlencode}
use hiyori.Url.Query.Ascii.{urlencode-IsText}
use hiyori.Bodies.{BytesRequestBody, bytes_body}
use hiyori.Bodies.Laws.{bytes_stream, remaining-bytes_body}
use hiyori.Stream.Drain.{drain, drain_complete}
use hiyori.Body.{url_encoded_body, json_body}

-- A body that holds the encoding of a text, read to its end in pieces of at most `n` bytes.
bytes_body-to_str :
    (fuel n : ℕ) (s : Str)
    → 0 < n
    → length (encode s) < fuel
    → IsText s
    → (pieces : List Bytes) × (b : BytesRequestBody) × (drain bytes_stream fuel n
          (bytes_body (encode s))
        ≡ some (pieces, b))
      × (to_str (concat pieces) ≡ ok s)
bytes_body-to_str fuel n s pos enough h =
    let (pieces, b, run, whole, _) =
      drain_complete bytes_stream fuel n (bytes_body (encode s)) pos
        (omega (arith, ap length (remaining-bytes_body (encode s)), enough)) in
    (pieces, b, run, ap to_str (whole ∙ remaining-bytes_body (encode s)) ∙ to_str-encode s h)

-- Sent in pieces of any size, with fuel above the number of its bytes, a UrlEncodedRequestBody is a text
-- that parses to its fields, names and values being texts; a field with an empty value is dropped.
pub url_encoded_body-parse_qsl :
    (fuel n : ℕ) (fields : List (Str × Str))
    → 0 < n
    → length (encode (urlencode fields)) < fuel
    → AreTexts fields
    → (pieces : List Bytes) × (b : BytesRequestBody) × (drain bytes_stream fuel n
          (url_encoded_body fields)
        ≡ some (pieces, b))
      × ((to_str (concat pieces) >>= λ s. ok (parse_qsl s)) ≡ ok (filled fields))
unfolding url_encoded_body
url_encoded_body-parse_qsl fuel n fields pos enough h =
    let (pieces, b, run, read_back) =
      bytes_body-to_str fuel n (urlencode fields) pos enough (urlencode-IsText fields h) in
    (
      pieces,
      b,
      run,
      ap (λ r. r >>= λ s. ok (parse_qsl s)) read_back ∙ ap ok (parse_qsl-urlencode fields h),
    )

-- Sent in the same way, a JsonRequestBody whose dump is a text is read by `to_json` of a response that
-- gives it back as the value of this dump.
pub json_body-to_json :
    {A : Type 0} (loads : Str → Outcome Error A) (fuel n : ℕ) (dump : Str)
    → 0 < n
    → length (encode dump) < fuel
    → IsText dump
    → (pieces : List Bytes) × (b : BytesRequestBody) × (drain bytes_stream fuel n (json_body dump)
        ≡ some (pieces, b))
      × (to_json loads (concat pieces) ≡ loads dump)
unfolding json_body to_json
json_body-to_json loads fuel n dump pos enough h =
    let (pieces, b, run, read_back) = bytes_body-to_str fuel n dump pos enough h in
    (pieces, b, run, ap (λ r. r >>= loads) read_back)
