-- ===== src/Tests/Reader.antt =====
-- A server's reading of some forms of hiyori/multipart.py.
use hiyori.Prelude.{
  ◌≡◌, refl, Option, none, some, List, [], ◌∷◌, ◌++◌, length, concat, ◌<◌, Str, Bytes, codes,
  encode, to_lower, ◌=s=◌, starts_with, partition, split_after, split_once, arith,
}
use hiyori.Outcome.{ok, raise}
use hiyori.Exceptions.{value_error}
use hiyori.Utf8.{to_str}
use hiyori.Stream.Drain.{drain}
use hiyori.Multipart.Field.{crlf, header_lines, title_from, file_type, File}
use hiyori.Multipart.Form.{
  FormValue, text, stream, file, MultipartRequestBody, multipart_body, seek_front, content_type,
}
use hiyori.Multipart.Content.{form_stream}
use hiyori.Multipart.Format.{form_bytes}
use hiyori.Multipart.Calls.{reading, rewinding, measuring, after}
use hiyori.Multipart.Reader.{read_form, read_pieces, read_part, name_of, boundary_of}
use hiyori.Multipart.Reader.Parts.{AllReadable, texts, Fails}
use hiyori.Multipart.Reader.Sent.{sent-read_form, sent-unreadable}
use hiyori.Tests.Dict.{assoc_dict}

abbrev Headers : Type 0
Headers = List (Str × Str)

abbrev guess_nothing : Str → Option Str
guess_nothing _ = none

-- The second value has a line that begins with two dashes.
abbrev fields : List (Str × Str)
fields = (codes "a", codes "b") ∷ (codes "é", crlf ++ codes "--x") ∷ []

fields-AllReadable : AllReadable (codes "0") fields
unfolding starts_with encode
fields-AllReadable = (
  record {
    name = ground arith;
    value = ground arith;
    unquoted = ground arith;
    one_line = ground arith;
    undelimited = ground arith;
  },
  (
    record {
      name = ground arith;
      value = ground arith;
      unquoted = ground arith;
      one_line = ground arith;
      undelimited = ground arith;
    },
    tt,
  ),
)

short_enough : length (form_bytes guess_nothing (codes "0") (texts Headers fields)) < 400
unfolding encode
short_enough = omega arith

test_sent-read_form :
    (pieces : List Bytes) × (m : MultipartRequestBody Headers) × (drain form_stream 400 16
        (seek_front (
          after
            (reading 7 ∷ measuring ∷ [])
            (multipart_body guess_nothing (codes "0") (texts Headers fields)))).1
      ≡ some (pieces, m))
    × (read_form
          (content_type (multipart_body guess_nothing (codes "0") (texts Headers fields)))
          (concat pieces)
        ≡ ok fields)
test_sent-read_form =
    sent-read_form Headers guess_nothing (codes "0") fields (reading 7 ∷ measuring ∷ []) 400 16
      (omega arith) short_enough (ground arith) fields-AllReadable

abbrev with_file : List (Str × FormValue Headers)
with_file =
    (codes "a", text (codes "b"))
    ∷ (codes "c", stream (record { buf = codes "1234567890"; pos = 0 }))
    ∷ []

abbrev quoted : List (Str × FormValue Headers)
quoted = (codes "a\"; x=\"b", text (codes "c")) ∷ []

-- A file runs straight into the closing delimiter, which is then no line: nothing can be read.
test_file :
    read_form
      (codes "multipart/form-data; boundary=--------HiyoriFormBoundary0")
      (form_bytes guess_nothing (codes "0") with_file)
    ≡ raise value_error
unfolding header_lines encode title_from to_lower ◌=s=◌ file_type read_form read_pieces read_part
    name_of boundary_of starts_with partition split_after split_once to_str
test_file = refl

-- Fields, and a file whose bytes end without a line end.
abbrev letter : File Headers
letter = record {
  fp = record { buf = codes "Dear"; pos = 0 };
  filename = some (codes "letter.txt");
  content_type = some (codes "text/plain");
  headers = [];
}

abbrev with_letter : List (Str × FormValue Headers)
with_letter = texts Headers fields ++ (codes "c", file letter) ∷ []

letter_short_enough : length (form_bytes guess_nothing (codes "0") with_letter) < 500
unfolding header_lines encode title_from to_lower ◌=s=◌ file_type
letter_short_enough = omega arith

sent-unreadable_example :
    (pieces : List Bytes) × (m : MultipartRequestBody Headers) × (drain form_stream 500 16
        (seek_front
          (after (rewinding ∷ []) (multipart_body guess_nothing (codes "0") with_letter))).1
      ≡ some (pieces, m))
    × Fails (
        read_form
          (content_type (multipart_body guess_nothing (codes "0") with_letter))
          (concat pieces))
unfolding starts_with header_lines encode title_from to_lower ◌=s=◌ file_type
sent-unreadable_example =
    sent-unreadable Headers guess_nothing (codes "0") fields (codes "c") letter (rewinding ∷ []) 500
      16 (omega arith) letter_short_enough (ground arith) fields-AllReadable (ground arith)

-- A quote in a name ends it.
test_quote :
    read_form
      (codes "multipart/form-data; boundary=--------HiyoriFormBoundary0")
      (form_bytes guess_nothing (codes "0") quoted)
    ≡ ok ((codes "a", codes "c") ∷ [])
unfolding header_lines encode title_from to_lower ◌=s=◌ file_type read_form read_pieces read_part
    name_of boundary_of starts_with partition split_after split_once to_str
test_quote = refl
