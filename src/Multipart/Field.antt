-- ===== src/Multipart/Field.antt =====
-- _StrField, _FileField and File of hiyori/multipart.py. The fields of a form have streams and
-- headers of their own, as different File objects have; `mimetypes.guess_type` is an argument.
use hiyori.Prelude.{
  ℕ, ◌+◌, ◌&&◌, Bool, false, Option, none, some, List, [], ◌∷◌, ◌++◌, leb, ◌||◌, if◌then◌else◌, Str,
  Bytes, codes, encode, to_upper, to_lower,
}
use hiyori.Outcome.{Outcome, ok, raise}
use hiyori.Exceptions.{Error, eof_error}
use hiyori.Headers.{HeaderDict}
use hiyori.Bodies
use hiyori.Bodies.{BytesIo, io_read, io_seek_set, io_seek_end, BytesRequestBody, bytes_body, or_eof}

abbrev pub crlf : Str
crlf = 13 ∷ 10 ∷ []

-- `s.title()`: a letter is upper case where no letter stands before it (ASCII letters).
unfoldable pub is_alpha : ℕ → Bool
is_alpha c = (leb b'a' c && leb c b'z') || (leb b'A' c && leb c b'Z')

unfoldable pub title_from : Bool → Str → Str
unfolding is_alpha to_upper to_lower
title_from prev [] = []
title_from prev (c ∷ s) = (if prev then to_lower c else to_upper c) ∷ title_from (is_alpha c) s

abbrev pub title : Str → Str
title = title_from false

-- `not s`, for an optional text
abbrev pub truthy : Option Str → Option Str
truthy none = none
truthy (some []) = none
truthy (some (c ∷ s)) = some (c ∷ s)

-- _StrField(name, value, prefix)
unfoldable pub str_field : Str → Str → Bytes → BytesRequestBody
unfolding bytes_body encode
str_field name value prefix = bytes_body (
    prefix
    ++ (encode (
          codes "Content-Disposition: form-data; name=\""
          ++ (name ++ (codes "\"" ++ (crlf ++ crlf))))
        ++ (encode value ++ crlf)))

pub record FileField (H : Type 0) : Type 0 where
  pub fp : BytesIo
  pub headers : H
  pub first_prefix : Bytes
  pub raw_prefix : Option BytesRequestBody

pub record File (H : Type 0) : Type 0 where
  pub fp : BytesIo
  pub filename : Option Str
  pub content_type : Option Str
  pub headers : H

-- the loop over the headers in `_prefix`
unfoldable pub header_lines : List (Str × Str) → Bytes
unfolding encode title_from
header_lines [] = []
header_lines ((name, value) ∷ rest) =
    encode (title name ++ (codes ": " ++ (value ++ crlf))) ++ header_lines rest

module _ {H : Type 0} ⦃d : HeaderDict H⦄ where
  unfoldable pub prefix_bytes : FileField H → Bytes
  unfolding header_lines
  prefix_bytes f = f.first_prefix ++ (header_lines (d.items f.headers) ++ crlf)

  -- the property `_prefix`, built at its first use
  unfoldable pub prefix : FileField H → BytesRequestBody
  unfolding prefix_bytes bytes_body
  prefix f = elim f.raw_prefix [ none ↦ bytes_body (prefix_bytes f) | some p ↦ p ]

  unfoldable pub file_calc_len : FileField H → Outcome Error ℕ × FileField H
  unfolding prefix io_seek_set io_seek_end Bodies.calc_len
  file_calc_len f =
      let at_end = io_seek_end f.fp in
      let p = prefix f in
      (ok (p.len + at_end.pos), record f { fp = io_seek_set at_end; raw_prefix = some p })

  unfoldable pub file_seek_front : FileField H → Outcome Error (Unit {0}) × FileField H
  unfolding prefix io_seek_set Bodies.seek_front
  file_seek_front f =
      let (r, p) = Bodies.seek_front (prefix f) in
      (r, record f { fp = io_seek_set f.fp; raw_prefix = some p })

  -- `contextlib.suppress(EOFError)` round the read of the prefix, then the file
  unfoldable pub file_read : ℕ → FileField H → Outcome Error Bytes × FileField H
  unfolding prefix io_read Bodies.read
  file_read n f =
      let (r, p) = Bodies.read n (prefix f) in
      let (part, fp) = io_read n f.fp in
      elim r [
        | ok chunk ↦ (ok chunk, record f { raw_prefix = some p })
        | raise eof_error ↦ (or_eof part, record f { raw_prefix = some p; fp = fp })
        | raise e ↦ (raise e, record f { raw_prefix = some p })
      ]

  module _ (guess_type : Str → Option Str) where
    -- the choice of `content_type` in `_to_file_field`
    unfoldable pub file_type : File H → Str
    file_type f = elim (truthy f.content_type) [
      | some given ↦ given
      | none ↦ elim (truthy f.filename) [
        | none ↦ codes "application/octet-stream"
        | some filename ↦ elim (guess_type filename) [
          | none ↦ codes "application/octet-stream"
          | some guessed ↦ guessed
        ]
      ]
    ]

    -- File._to_file_field: the field, and the file with the headers that it has now
    unfoldable pub to_file_field : Str → Bytes → File H → FileField H × File H
    unfolding file_type
    to_file_field name prefix f =
        let typed : H =
          if d.contains (codes "content-type") f.headers
          then f.headers
          else d.set (codes "content-type") (file_type f) f.headers in
        let named : Str = codes "form-data; name=\"" ++ (name ++ codes "\"") in
        let disposition : Str = elim (truthy f.filename) [
          | none ↦ named
          | some filename ↦ named ++ (codes "; filename=\"" ++ (filename ++ codes "\""))
        ] in
        let headers = d.set (codes "content-disposition") disposition typed in
        (
          record { fp = f.fp; headers = headers; first_prefix = prefix; raw_prefix = none },
          record f { headers = headers },
        )
