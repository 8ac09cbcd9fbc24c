-- ===== src/Multipart/Reader/Parts.antt =====
-- The parts of a form (hiyori/multipart.py) between its delimiters, as a server reads them.
use hiyori.Prelude.{
  ◌≡◌, inl, inr, refl, ap, ◌∙◌, List, [], ◌∷◌, ◌++◌, map, arith, Str, Bytes, Lacks, Lacks-append,
  codes, encode, encode-Lacks, starts_with, split_once-append, partition, partition-Lacks, split,
  split-append, split-Absent, Absent, Absent-Lacks,
}
use hiyori.Outcome.{Outcome, ok, raise, Outcome-cases}
use hiyori.Exceptions.{Error, value_error}
use hiyori.Utf8.RoundTrip.{IsText, to_str-encode}
use hiyori.Multipart.Field.{crlf}
use hiyori.Multipart.Form.{FormValue, text}
use hiyori.Multipart.Reader.{line_delimiter, name_of, read_part, read_pieces}

-- The boundary of a form with the text of its uuid, and what stands behind the first character of the
-- delimiter.
abbrev pub boundary : Str → Str
boundary uuid = codes "--------HiyoriFormBoundary" ++ uuid

abbrev pub line_rest : Str → Bytes
line_rest uuid = 10 ∷ (codes "--" ++ encode (boundary uuid))

pub line_rest-Lacks : (uuid : Str) → Lacks 13 uuid → Lacks 13 (line_rest uuid)
line_rest-Lacks uuid plain =
    Lacks-append 13 (10 ∷ codes "--") (encode (boundary uuid)) (ground arith) (
      encode-Lacks 13 (boundary uuid) (omega arith)
        (Lacks-append 13 (codes "--------HiyoriFormBoundary") uuid (ground arith) plain))

-- A field that can be told from the form round it: texts, of which the name can stand between quotes
-- on a line, and no line of the value begins like a delimiter.
pub record IsReadable (uuid : Str) (field : Str × Str) : Type 0 where
  pub name : IsText field.0
  pub value : IsText field.1
  pub unquoted : Lacks b'"' field.0
  pub one_line : Lacks 13 field.0
  pub undelimited : Absent (line_delimiter (boundary uuid)) (crlf ++ encode field.1)

-- The headers of a text field up to the end of its name.
abbrev pub head_of : Str → Bytes
head_of name = codes "Content-Disposition: form-data; name=\"" ++ (encode name ++ b'"' ∷ [])

abbrev pub part_of : Str × Str → Bytes
part_of (name, value) = head_of name ++ ((crlf ++ crlf) ++ encode value)

head_of-Lacks : (name : Str) → Lacks 13 name → Lacks 13 (head_of name)
head_of-Lacks name h =
    Lacks-append 13 (codes "Content-Disposition: form-data; name=\"") (encode name ++ b'"' ∷ [])
      (ground arith)
      (Lacks-append 13 (encode name) (b'"' ∷ []) (encode-Lacks 13 name (omega arith) h)
        (ground arith))

name_of-head_of : (name : Str) → IsText name → Lacks b'"' name → name_of (head_of name) ≡ ok name
unfolding name_of partition starts_with
name_of-head_of name h unquoted =
    rw (split_once-append b'"' (encode name) [] (encode-Lacks b'"' name (omega arith) unquoted))
      (to_str-encode name h)

read_part-part_of :
    (uuid : Str) (field : Str × Str) → IsReadable uuid field → read_part (part_of field) ≡ ok field
unfolding read_part
read_part-part_of uuid (name, value) h =
    rw
      (
        partition-Lacks 13 (10 ∷ crlf) (head_of name) (encode value)
            (head_of-Lacks name h.one_line),
        name_of-head_of name h.name h.unquoted,
        to_str-encode value h.value,
      )
      refl

abbrev pub AllReadable : Str → List (Str × Str) → Type 0
AllReadable uuid [] = Unit
AllReadable uuid (field ∷ fields) = IsReadable uuid field × AllReadable uuid fields

-- A form of these fields.
abbrev pub texts : (H : Type 0) → List (Str × Str) → List (Str × FormValue H)
texts H fields = map (λ (name, value). (name, text value)) fields

-- What stands behind the first delimiter of a form that begins with these fields.
abbrev pub behind : Str → List (Str × Str) → Bytes → Bytes
behind uuid [] tail = tail
behind uuid (field ∷ fields) tail =
    (crlf ++ part_of field) ++ (line_delimiter (boundary uuid) ++ behind uuid fields tail)

-- The closing delimiter, behind what makes it a delimiter.
abbrev pub closed : Bytes
closed = codes "--" ++ crlf

part_of-Absent :
    (uuid : Str) (field : Str × Str)
    → IsReadable uuid field
    → Absent (line_delimiter (boundary uuid)) (crlf ++ part_of field)
unfolding starts_with
part_of-Absent uuid (name, value) h = (
  refl,
  Absent-Lacks 13 (line_rest uuid) (10 ∷ head_of name) ((crlf ++ crlf) ++ encode value)
      (ground arith, head_of-Lacks name h.one_line) (refl, (refl, h.undelimited)),
)

pub split-behind :
    (uuid : Str) (fields : List (Str × Str)) (tail : Bytes)
    → Lacks 13 uuid
    → AllReadable uuid fields
    → Absent (line_delimiter (boundary uuid)) tail
    → split (line_delimiter (boundary uuid)) (behind uuid fields tail)
      ≡ map (λ f. crlf ++ part_of f) fields ++ tail ∷ []
split-behind uuid [] tail plain tt h = split-Absent 13 (line_rest uuid) tail h
split-behind uuid (field ∷ fields) tail plain (h, hs) last =
    split-append 13 (line_rest uuid) (crlf ++ part_of field) (behind uuid fields tail)
      (line_rest-Lacks uuid plain) (part_of-Absent uuid field h)
    ∙ ap (λ rest. (crlf ++ part_of field) ∷ rest) (split-behind uuid fields tail plain hs last)

pub closed-Absent : (uuid : Str) → Absent (line_delimiter (boundary uuid)) closed
unfolding starts_with
closed-Absent uuid = (refl, (refl, (refl, (refl, tt))))

pub read_pieces-part_of :
    (uuid : Str) (fields : List (Str × Str))
    → AllReadable uuid fields
    → read_pieces (map (λ f. crlf ++ part_of f) fields ++ closed ∷ []) ≡ ok fields
unfolding read_pieces starts_with
read_pieces-part_of uuid [] tt = refl
read_pieces-part_of uuid (field ∷ fields) (h, hs) =
    rw (read_part-part_of uuid field h, read_pieces-part_of uuid fields hs) refl

abbrev pub Fails : {A : Type 0} → Outcome Error A → Type 0
Fails {A} r = (e : Error) × (r ≡ raise e)

-- A part that no closing delimiter follows.
pub read_pieces-unclosed :
    (uuid : Str) (fields : List (Str × Str)) (tail : Bytes)
    → AllReadable uuid fields
    → Fails (read_pieces (map (λ f. crlf ++ part_of f) fields ++ (crlf ++ tail) ∷ []))
unfolding read_pieces starts_with
read_pieces-unclosed uuid [] tail tt = elim (Outcome-cases (read_part tail)) [
  | inl (field, e) ↦ (value_error, rw e refl)
  | inr (x, e) ↦ (x, rw e refl)
]
read_pieces-unclosed uuid (field ∷ fields) tail (h, hs) =
    let (x, e) = read_pieces-unclosed uuid fields tail hs in
    (x, rw (read_part-part_of uuid field h, e) refl)
