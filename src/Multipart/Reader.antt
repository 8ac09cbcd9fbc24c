-- ===== src/Multipart/Reader.antt =====
-- How a server reads a multipart/form-data body (RFC 2046 and RFC 7578): independent of the classes of
-- hiyori/multipart.py, which write one. What cannot be read raises ValueError.
pub mod Parts
pub mod RoundTrip
pub mod Sent
pub mod Posted
use hiyori.Prelude.{
  true, false, Option, none, some, List, [], ◌∷◌, ◌++◌, length, drop, Str, Bytes, codes, encode,
  starts_with, split_once, partition, split, split_after,
}
use hiyori.Outcome.{Outcome, ok, raise, ◌>>=◌}
use hiyori.Exceptions.{Error, value_error}
use hiyori.Utf8.{to_str}
use hiyori.Multipart.Field.{crlf}

abbrev required : {A : Type 0} → Option A → Outcome Error A
required none = raise value_error
required (some a) = ok a

-- The value of `boundary` in a content-type.
unfoldable pub boundary_of : Str → Outcome Error Str
unfolding starts_with
boundary_of content_type =
    let start = codes "multipart/form-data; boundary=" in
    elim (starts_with start content_type) [
      | true ↦ ok (drop (length start) content_type)
      | false ↦ raise value_error
    ]

-- A delimiter stands at the beginning of a line.
abbrev pub line_delimiter : Str → Bytes
line_delimiter boundary = crlf ++ (codes "--" ++ encode boundary)

-- The name in the headers of a part.
unfoldable pub name_of : Bytes → Outcome Error Str
unfolding partition split_once to_str
name_of head = do
  found ← required (partition (codes "form-data; name=\"") head)
  let (name, end) = split_once b'"' found.1
  _ ← required end
  to_str name

-- Headers, a blank line, and the value.
unfoldable pub read_part : Bytes → Outcome Error (Str × Str)
unfolding name_of partition to_str
read_part part = do
  cut ← required (partition (crlf ++ crlf) part)
  name ← name_of cut.0
  value ← to_str cut.1
  ok (name, value)

-- The pieces behind the first delimiter: each begins a line that holds a part, until one closes the
-- body. What is behind that one is of no account.
unfoldable pub read_pieces : List Bytes → Outcome Error (List (Str × Str))
unfolding read_part starts_with
read_pieces [] = raise value_error
read_pieces (piece ∷ pieces) =
    let rest = read_pieces pieces in
    elim (starts_with (codes "--") piece) [
      | true ↦ ok []
      | false ↦ elim (starts_with crlf piece) [
        | false ↦ raise value_error
        | true ↦ read_part (drop 2 piece) >>= λ field. rest >>= λ fields. ok (field ∷ fields)
      ]
    ]

-- The fields of a body. The first delimiter may stand at its beginning, and what is in front of it is of
-- no account.
unfoldable pub read_form : Str → Bytes → Outcome Error (List (Str × Str))
unfolding boundary_of split_after read_pieces
read_form content_type body = do
  boundary ← boundary_of content_type
  read_pieces (drop 1 (split (line_delimiter boundary) (crlf ++ body)))
