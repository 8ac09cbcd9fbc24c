-- ===== src/Multipart/Reader/RoundTrip.antt =====
-- A form of text fields, as a server reads what MultipartRequestBody of hiyori/multipart.py sends.
use hiyori.Prelude.{
  ◌≡◌, sym, ap, ◌∙◌, Option, List, [], ◌∷◌, ◌++◌, map, drop, append_assoc, append-nil, Str, Bytes,
  Lacks, codes, encode, encode-append, starts_with, split, split-append, Absent,
}
use hiyori.Outcome.{ok}
use hiyori.Headers.{HeaderDict}
use hiyori.Multipart.Field.{crlf, File, header_lines}
use hiyori.Multipart.Form.{FormValue, file, multipart_body, content_type}
use hiyori.Multipart.Format.{delimiter_of, closing_of, form_bytes, file_headers}
use hiyori.Multipart.Reader.{line_delimiter, read_pieces, read_form, boundary_of}
use hiyori.Multipart.Reader.Parts.{
  boundary, line_rest, line_rest-Lacks, head_of, part_of, AllReadable, texts, behind, closed,
  split-behind, closed-Absent, read_pieces-part_of, Fails, read_pieces-unclosed,
}

encode-head_of :
    (name : Str)
    → encode (
        codes "Content-Disposition: form-data; name=\"" ++ (name ++ (codes "\"" ++ (crlf ++ crlf))))
      ≡ head_of name ++ (crlf ++ crlf)
unfolding encode
encode-head_of name =
    encode-append (codes "Content-Disposition: form-data; name=\"")
      (name ++ (codes "\"" ++ (crlf ++ crlf)))
    ∙ ap (λ t. codes "Content-Disposition: form-data; name=\"" ++ t)
        (encode-append name (codes "\"" ++ (crlf ++ crlf))
          ∙ sym (append_assoc (encode name) (b'"' ∷ []) (crlf ++ crlf)))

-- The bytes of one field, in front of any others.
field_part :
    (uuid name value : Str) (t : Bytes)
    → crlf
        ++ ((delimiter_of uuid
              ++ (encode (
                    codes "Content-Disposition: form-data; name=\""
                    ++ (name ++ (codes "\"" ++ (crlf ++ crlf))))
                  ++ (encode value ++ crlf)))
            ++ t)
      ≡ line_delimiter (boundary uuid) ++ ((crlf ++ part_of (name, value)) ++ (crlf ++ t))
field_part uuid name value t = rw (encode-head_of name) (simp append_assoc)

module _ (H : Type 0) ⦃d : HeaderDict H⦄ (guess_type : Str → Option Str) (uuid : Str) where
  -- The form, from the line before it, is its first delimiter and what stands behind.
  form_bytes-behind :
      (fields : List (Str × Str)) (more : List (Str × FormValue H)) (tail : Bytes)
      → crlf ++ form_bytes guess_type uuid more ≡ line_delimiter (boundary uuid) ++ tail
      → crlf ++ form_bytes guess_type uuid (texts H fields ++ more)
        ≡ line_delimiter (boundary uuid) ++ behind uuid fields tail
  form_bytes-behind [] more tail h = h
  form_bytes-behind ((name, value) ∷ fields) more tail h =
      field_part uuid name value (form_bytes guess_type uuid (texts H fields ++ more))
      ∙ ap (λ t. line_delimiter (boundary uuid) ++ ((crlf ++ part_of (name, value)) ++ t))
          (form_bytes-behind fields more tail h)

  -- What stands behind the delimiter of a file at the end of a form, and behind the end of its line.
  abbrev pub file_tail : Str → File H → Bytes
  file_tail name f =
      header_lines (d.items (file_headers guess_type name f))
      ++ (crlf ++ (f.fp.buf ++ closing_of uuid))

  module _ (fields : List (Str × Str)) (plain : Lacks 13 uuid) (h : AllReadable uuid fields)
      (more : List (Str × FormValue H)) (tail : Bytes)
      (split_off : crlf ++ form_bytes guess_type uuid more ≡ line_delimiter (boundary uuid) ++ tail)
      (last : Absent (line_delimiter (boundary uuid)) tail) where
    read_form-pieces :
        read_form
          (content_type (multipart_body guess_type uuid (texts H fields ++ more)))
          (form_bytes guess_type uuid (texts H fields ++ more))
        ≡ read_pieces (map (λ f. crlf ++ part_of f) fields ++ tail ∷ [])
    unfolding read_form boundary_of multipart_body starts_with
    read_form-pieces =
        ap (λ s. read_pieces (drop 1 (split (line_delimiter (boundary uuid)) s)))
          (form_bytes-behind fields more tail split_off)
        ∙ ap (λ s. read_pieces (drop 1 s))
            (split-append 13 (line_rest uuid) [] (behind uuid fields tail)
                (line_rest-Lacks uuid plain) tt
              ∙ ap (λ rest. [] ∷ rest) (split-behind uuid fields tail plain h last))

  -- A form of text fields, of which the uuid holds no CR, each name is a text without a quote or a CR, and
  -- each value a text no line of which begins with the delimiter, is read back from its content-type
  -- and its bytes, in the order of its fields.
  pub read_form-form_bytes :
      (fields : List (Str × Str))
      → Lacks 13 uuid
      → AllReadable uuid fields
      → read_form
          (content_type (multipart_body guess_type uuid (texts H fields)))
          (form_bytes guess_type uuid (texts H fields))
        ≡ ok fields
  read_form-form_bytes fields plain h =
      ap
        (λ form.
          read_form (content_type (multipart_body guess_type uuid form))
            (form_bytes guess_type uuid form))
        (sym (append-nil (texts H fields)))
      ∙ read_form-pieces fields plain h [] closed (simp (append_assoc, append-nil))
          (closed-Absent uuid)
      ∙ read_pieces-part_of uuid fields h

  -- A form of text fields and a file at its end cannot be read, where the uuid holds no CR, each name of
  -- a text field is a text without a quote or a CR, each value a text no line of which begins with the
  -- delimiter, and no line does so of what is sent from the file's headers on: since the closing
  -- delimiter runs on from the bytes of the file, the reader fails.
  pub read_form-file :
      (fields : List (Str × Str)) (name : Str) (f : File H)
      → Lacks 13 uuid
      → AllReadable uuid fields
      → Absent (line_delimiter (boundary uuid)) (crlf ++ file_tail name f)
      → Fails (
          read_form
            (content_type (multipart_body guess_type uuid (texts H fields ++ (name, file f) ∷ [])))
            (form_bytes guess_type uuid (texts H fields ++ (name, file f) ∷ [])))
  read_form-file fields name f plain h last =
      let tail = file_tail name f in
      let (x, e) = read_pieces-unclosed uuid fields tail h in
      (
        x,
        read_form-pieces fields plain h ((name, file f) ∷ []) (crlf ++ tail)
              (simp (append_assoc, append-nil)) last
            ∙ e,
      )
