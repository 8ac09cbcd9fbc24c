-- ===== src/Tests/Forms.antt =====
-- tests/test_multipart.py: the bytes of two forms, and the theorems of Multipart/Calls at one.
use hiyori.Prelude.{
  ◌≡◌, refl, Option, none, some, List, [], ◌∷◌, ◌++◌, length, concat, ◌<◌, Str, Bytes, codes,
  encode, to_lower, ◌=s=◌, arith,
}
use hiyori.Outcome.{ok}
use hiyori.Stream.Drain.{drain}
use hiyori.Multipart.Field.{crlf, header_lines, title_from, file_type}
use hiyori.Multipart.Form.{
  FormValue, text, stream, MultipartRequestBody, multipart_body, seek_front, calc_len,
}
use hiyori.Multipart.Content.{form_stream}
use hiyori.Multipart.Format.{form_bytes}
use hiyori.Multipart.Calls.{
  Call, reading, rewinding, measuring, after, drain-seek_front, calc_len-form_bytes,
}
use hiyori.Tests.Dict.{assoc_dict}

abbrev Headers : Type 0
Headers = List (Str × Str)

abbrev guess_nothing : Str → Option Str
guess_nothing _ = none

abbrev simple_form : List (Str × FormValue Headers)
simple_form =
    (codes "a", text (codes "b"))
    ∷ (codes "c", stream (record { buf = codes "1234567890"; pos = 0 }))
    ∷ []

abbrev line : Str → Bytes
line s = s ++ crlf

-- `test_detail`: the file's bytes run straight into the closing delimiter.
test_detail :
    form_bytes guess_nothing (codes "0") simple_form
    ≡ line (codes "----------HiyoriFormBoundary0")
      ++ line (codes "Content-Disposition: form-data; name=\"a\"")
      ++ line []
      ++ line (codes "b")
      ++ line (codes "----------HiyoriFormBoundary0")
      ++ line (codes "Content-Type: application/octet-stream")
      ++ line (codes "Content-Disposition: form-data; name=\"c\"")
      ++ line []
      ++ line (codes "1234567890----------HiyoriFormBoundary0--")
unfolding header_lines encode title_from to_lower ◌=s=◌ file_type
test_detail = refl

abbrev calls : List Call
calls = reading 7 ∷ reading 1000 ∷ rewinding ∷ reading 3 ∷ measuring ∷ reading 50 ∷ []

simple_length : length (form_bytes guess_nothing (codes "0") simple_form) < 400
unfolding header_lines encode title_from to_lower ◌=s=◌ file_type
simple_length = omega arith

drain-seek_front_example :
    (pieces : List Bytes) × (m : MultipartRequestBody Headers) × (drain form_stream 400 16
        (seek_front (after calls (multipart_body guess_nothing (codes "0") simple_form))).1
      ≡ some (pieces, m))
    × (concat pieces ≡ form_bytes guess_nothing (codes "0") simple_form)
drain-seek_front_example =
    drain-seek_front guess_nothing (codes "0") simple_form calls 400 16 (omega arith) simple_length

calc_len-form_bytes_example :
    (calc_len (after calls (multipart_body guess_nothing (codes "0") simple_form))).0
    ≡ ok (length (form_bytes guess_nothing (codes "0") simple_form))
calc_len-form_bytes_example = calc_len-form_bytes guess_nothing (codes "0") simple_form calls
