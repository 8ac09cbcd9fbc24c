-- ===== src/Multipart/Reader/Sent.antt =====
-- What a server reads of a form that the client sends.
use hiyori.Prelude.{
  ◌++◌, [], ◌∷◌, Absent, ℕ, ◌<◌, ◌≡◌, ap, ◌∙◌, Option, some, List, length, concat, Str, Bytes,
  Lacks,
}
use hiyori.Outcome.{ok}
use hiyori.Headers.{HeaderDict}
use hiyori.Stream.Drain.{drain}
use hiyori.Multipart.Field.{crlf, File}
use hiyori.Multipart.Form.{
  FormValue, file, MultipartRequestBody, multipart_body, content_type, seek_front,
}
use hiyori.Multipart.Content.{form_stream}
use hiyori.Multipart.Format.{form_bytes}
use hiyori.Multipart.Calls.{Call, after, drain-seek_front}
use hiyori.Multipart.Reader.{read_form, line_delimiter}
use hiyori.Multipart.Reader.Parts.{AllReadable, texts, boundary, Fails}
use hiyori.Multipart.Reader.RoundTrip.{read_form-form_bytes, file_tail, read_form-file}

module _ (H : Type 0) ⦃d : HeaderDict H⦄ (guess_type : Str → Option Str) (uuid : Str)
    (fields : List (Str × Str)) (calls : List Call) where
  abbrev new : MultipartRequestBody H
  new = multipart_body guess_type uuid (texts H fields)

  -- A form of text fields, of which the uuid holds no CR, each name is a text without a quote or a CR,
  -- and each value a text no line of which begins with the delimiter: whatever was read, rewound or
  -- measured before, rewound and sent to its end in pieces of any positive size, with one call more than
  -- there are bytes as fuel, it is read with its content-type as exactly its fields in order.
  pub sent-read_form :
      (fuel n : ℕ)
      → 0 < n
      → length (form_bytes guess_type uuid (texts H fields)) < fuel
      → Lacks 13 uuid
      → AllReadable uuid fields
      → (pieces : List Bytes) × (m : MultipartRequestBody H) × (drain form_stream fuel n
            (seek_front (after calls new)).1
          ≡ some (pieces, m))
        × (read_form (content_type new) (concat pieces) ≡ ok fields)
  sent-read_form fuel n pos enough plain h =
      let (pieces, m, run, sent) =
        drain-seek_front guess_type uuid (texts H fields) calls fuel n pos enough in
      (
        pieces,
        m,
        run,
        ap (read_form (content_type new)) sent
            ∙ read_form-form_bytes H guess_type uuid fields plain h,
      )

module _ (H : Type 0) ⦃d : HeaderDict H⦄ (guess_type : Str → Option Str) (uuid : Str)
    (fields : List (Str × Str)) (name : Str) (f : File H) (calls : List Call) where
  abbrev ended : List (Str × FormValue H)
  ended = texts H fields ++ (name, file f) ∷ []

  -- A form of text fields and a file at its end, where the uuid holds no CR, each name of a text field is a
  -- text without a quote or a CR, each value a text no line of which begins with the delimiter, and
  -- no line does so of what is sent from the file's headers on: whatever was called before, rewound
  -- and sent to its end in pieces of any positive size, with one call more than there are bytes as
  -- fuel, it cannot be read, since the closing delimiter runs on from the bytes of the file.
  pub sent-unreadable :
      (fuel n : ℕ)
      → 0 < n
      → length (form_bytes guess_type uuid ended) < fuel
      → Lacks 13 uuid
      → AllReadable uuid fields
      → Absent (line_delimiter (boundary uuid)) (crlf ++ file_tail H guess_type uuid name f)
      → (pieces : List Bytes) × (m : MultipartRequestBody H) × (drain form_stream fuel n
            (seek_front (after calls (multipart_body guess_type uuid ended))).1
          ≡ some (pieces, m))
        × Fails (read_form (content_type (multipart_body guess_type uuid ended)) (concat pieces))
  sent-unreadable fuel n pos enough plain h last =
      let (pieces, m, run, sent) = drain-seek_front guess_type uuid ended calls fuel n pos enough in
      let (e, fails) = read_form-file H guess_type uuid fields name f plain h last in
      (
        pieces,
        m,
        run,
        (e, ap (read_form (content_type (multipart_body guess_type uuid ended))) sent ∙ fails),
      )
