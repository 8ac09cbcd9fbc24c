-- ===== src/Multipart/Format.antt =====
-- What a new form holds, written down independently of the classes: for each field a delimiter, a
-- header block and its value, and the closing delimiter at the end.
use hiyori.Prelude.{
  refl, inl, Option, none, some, List, [], ◌∷◌, ◌++◌, map, concat, Str, Bytes, codes, encode,
  if◌then◌else◌,
}
use hiyori.Headers.{HeaderDict}
use hiyori.Bodies.{BytesIo, bytes_body}
use hiyori.Bodies.Laws.{bytes_body-IsWhole}
use hiyori.Multipart.Field.{
  crlf, str_field, header_lines, File, prefix_bytes, prefix, truthy, file_type, to_file_field,
}
use hiyori.Multipart.Form.{bytes_part, FormValue, text, file, stream, to_part, multipart_body}
use hiyori.Multipart.Parts.{PartHolds, FileHolds}
use hiyori.Multipart.Content.{PartsHold, FormHolds}

-- The delimiter before each field, and the one at the end.
abbrev pub delimiter_of : Str → Bytes
delimiter_of uuid = codes "--" ++ (encode (codes "--------HiyoriFormBoundary" ++ uuid) ++ crlf)

abbrev pub closing_of : Str → Bytes
closing_of uuid =
    codes "--" ++ (encode (codes "--------HiyoriFormBoundary" ++ uuid) ++ (codes "--" ++ crlf))

module _ {H : Type 0} ⦃d : HeaderDict H⦄ (guess_type : Str → Option Str) where
  -- The headers of a field that carries a file.
  abbrev pub file_headers : Str → File H → H
  file_headers name f =
      let typed : H =
        if d.contains (codes "content-type") f.headers
        then f.headers
        else d.set (codes "content-type") (file_type guess_type f) f.headers in
      d.set (codes "content-disposition")
        (elim (truthy f.filename) [
          | none ↦ codes "form-data; name=\"" ++ (name ++ codes "\"")
          | some filename ↦
              (codes "form-data; name=\"" ++ (name ++ codes "\""))
              ++ (codes "; filename=\"" ++ (filename ++ codes "\""))
        ])
        typed

  -- A stream that the caller passes has no name and no headers.
  abbrev pub anonymous : BytesIo → File H
  anonymous fp = record { fp = fp; filename = none; content_type = none; headers = d.from_items [] }

  abbrev file_bytes : Bytes → Str → File H → Bytes
  file_bytes delimiter name f =
      (delimiter ++ (header_lines (d.items (file_headers name f)) ++ crlf)) ++ f.fp.buf

  abbrev pub field_bytes : Bytes → Str × FormValue H → Bytes
  field_bytes delimiter (name, text value) =
      delimiter
      ++ (encode (
            codes "Content-Disposition: form-data; name=\""
            ++ (name ++ (codes "\"" ++ (crlf ++ crlf))))
          ++ (encode value ++ crlf))
  field_bytes delimiter (name, file f) = file_bytes delimiter name f
  field_bytes delimiter (name, stream fp) = file_bytes delimiter name (anonymous fp)

  abbrev pub form_pieces : Bytes → Bytes → List (Str × FormValue H) → List Bytes
  form_pieces delimiter closing [] = closing ∷ []
  form_pieces delimiter closing (e ∷ form) =
      field_bytes delimiter e ∷ form_pieces delimiter closing form

  -- The whole body, for the random part of the boundary.
  abbrev pub form_bytes : Str → List (Str × FormValue H) → Bytes
  form_bytes uuid form = concat (form_pieces (delimiter_of uuid) (closing_of uuid) form)

  file-Holds :
      (delimiter : Bytes) (name : Str) (f : File H)
      → FileHolds (file_bytes delimiter name f) (to_file_field guess_type name delimiter f).0
  unfolding to_file_field prefix_bytes prefix
  file-Holds delimiter name f = record { ready = bytes_body-IsWhole _; whole = refl }

  to_part-Holds :
      (delimiter : Bytes) (e : Str × FormValue H)
      → PartHolds (field_bytes delimiter e) (to_part guess_type delimiter e)
  unfolding to_part str_field
  to_part-Holds delimiter (name, text value) = bytes_body-IsWhole _
  to_part-Holds delimiter (name, file f) = file-Holds delimiter name f
  to_part-Holds delimiter (name, stream fp) = file-Holds delimiter name (anonymous fp)

  to_parts-Hold :
      (delimiter closing : Bytes) (form : List (Str × FormValue H))
      → PartsHold
          (form_pieces delimiter closing form)
          (map (to_part guess_type delimiter) form ++ bytes_part (bytes_body closing) ∷ [])
  to_parts-Hold delimiter closing [] = (bytes_body-IsWhole closing, tt)
  to_parts-Hold delimiter closing (e ∷ form) =
      (to_part-Holds delimiter e, to_parts-Hold delimiter closing form)

  pub multipart_body-FormHolds :
      (uuid : Str) (form : List (Str × FormValue H))
      → FormHolds
          (form_pieces (delimiter_of uuid) (closing_of uuid) form)
          (multipart_body guess_type uuid form)
  unfolding multipart_body
  multipart_body-FormHolds uuid form = record {
    hold = to_parts-Hold (delimiter_of uuid) (closing_of uuid) form;
    cached = inl refl;
  }
