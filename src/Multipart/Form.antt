-- ===== src/Multipart/Form.antt =====
-- MultipartRequestBody of hiyori/multipart.py. The text of `uuid.uuid4()` is an argument.
use hiyori.Prelude.{
  ℕ, zero, suc, ◌+◌, Option, none, some, List, [], ◌∷◌, ◌++◌, map, Str, Bytes, codes, encode,
}
use hiyori.Outcome.{Outcome, ok, raise}
use hiyori.Exceptions.{Error, eof_error}
use hiyori.Headers.{HeaderDict}
use hiyori.Bodies
use hiyori.Bodies.{BytesIo, io_read, io_seek_set, io_seek_end, BytesRequestBody, bytes_body, or_eof}
use hiyori.Multipart.Field.{
  crlf, str_field, FileField, File, file_calc_len, file_seek_front, file_read, to_file_field,
}

pub data Part (H : Type 0) : Type 0 where
  -- a _StrField, or the BytesRequestBody with the closing delimiter
  bytes_part : BytesRequestBody → Part H
  file_part : FileField H → Part H

pub data FormValue (H : Type 0) : Type 0 where
  text : Str → FormValue H
  file : File H → FormValue H
  stream : BytesIo → FormValue H

pub record MultipartRequestBody (H : Type 0) : Type 0 where
  pub boundary : Str
  pub parts : List (Part H)
  pub body_len : Option ℕ
  pub ptr : ℕ

module _ {H : Type 0} ⦃d : HeaderDict H⦄ where
  -- dispatch on the class of a part
  unfoldable pub part_calc_len : Part H → Outcome Error ℕ × Part H
  unfolding file_calc_len Bodies.calc_len
  part_calc_len (bytes_part b) = let (r, b') = Bodies.calc_len b in (r, bytes_part b')
  part_calc_len (file_part f) = let (r, f') = file_calc_len f in (r, file_part f')

  unfoldable pub part_seek_front : Part H → Outcome Error (Unit {0}) × Part H
  unfolding file_seek_front Bodies.seek_front
  part_seek_front (bytes_part b) = let (r, b') = Bodies.seek_front b in (r, bytes_part b')
  part_seek_front (file_part f) = let (r, f') = file_seek_front f in (r, file_part f')

  unfoldable pub part_read : ℕ → Part H → Outcome Error Bytes × Part H
  unfolding file_read Bodies.read
  part_read n (bytes_part b) = let (r, b') = Bodies.read n b in (r, bytes_part b')
  part_read n (file_part f) = let (r, f') = file_read n f in (r, file_part f')

  module _ (guess_type : Str → Option Str) where
    -- one round of the loop of `MultipartRequestBody.__init__`
    unfoldable pub to_part : Bytes → Str × FormValue H → Part H
    unfolding to_file_field str_field
    to_part prefix (name, text value) = bytes_part (str_field name value prefix)
    to_part prefix (name, file f) = file_part (to_file_field guess_type name prefix f).0
    to_part prefix (name, stream fp) =
        file_part
          (to_file_field guess_type name prefix
            (record { fp = fp; filename = none; content_type = none; headers = d.from_items [] })).0

    -- MultipartRequestBody(form_dict), with the text of the uuid
    unfoldable pub multipart_body : Str → List (Str × FormValue H) → MultipartRequestBody H
    unfolding to_part bytes_body encode
    multipart_body uuid form =
        let boundary : Str = codes "--------HiyoriFormBoundary" ++ uuid in
        let field_prefix : Bytes = codes "--" ++ (encode boundary ++ crlf) in
        record {
          boundary = boundary;
          parts =
              map (to_part field_prefix) form
              ++ bytes_part (bytes_body (codes "--" ++ (encode boundary ++ (codes "--" ++ crlf))))
                ∷ [];
          body_len = none;
          ptr = 0;
        }

  abbrev pub content_type : MultipartRequestBody H → Str
  content_type m = codes "multipart/form-data; boundary=" ++ m.boundary

  -- the loop of `calc_len`, with its `body_len`
  unfoldable pub calc_parts : ℕ → List (Part H) → Outcome Error ℕ × List (Part H)
  unfolding part_calc_len
  calc_parts body_len [] = (ok body_len, [])
  calc_parts body_len (p ∷ ps) =
      let (r, p') = part_calc_len p in
      elim r [
        | ok k ↦ (let (r', ps') = calc_parts (body_len + k) ps in (r', p' ∷ ps'))
        | raise e ↦ (raise e, p' ∷ ps)
      ]

  unfoldable pub calc_len : MultipartRequestBody H → Outcome Error ℕ × MultipartRequestBody H
  unfolding calc_parts
  calc_len m = elim m.body_len [
    | some n ↦ (ok n, m)
    | none ↦
        let (r, ps) = calc_parts 0 m.parts in
        elim r [
          | ok n ↦ (ok n, record m { parts = ps; body_len = some n })
          | raise e ↦ (raise e, record m { parts = ps })
        ]
  ]

  -- the loop of `seek_front`
  unfoldable pub seek_parts : List (Part H) → Outcome Error (Unit {0}) × List (Part H)
  unfolding part_seek_front
  seek_parts [] = (ok tt, [])
  seek_parts (p ∷ ps) =
      let (r, p') = part_seek_front p in
      elim r [
        | ok _ ↦ (let (r', ps') = seek_parts ps in (r', p' ∷ ps'))
        | raise e ↦ (raise e, p' ∷ ps)
      ]

  unfoldable pub seek_front :
      MultipartRequestBody H → Outcome Error (Unit {0}) × MultipartRequestBody H
  unfolding seek_parts
  seek_front m = let (r, ps) = seek_parts m.parts in (r, record m { ptr = 0; parts = ps })

  -- the loop of `read` over the parts from `ptr` on: the outcome, the parts, and the `ptr` reached
  unfoldable pub read_parts : ℕ → List (Part H) → ℕ → Outcome Error Bytes × List (Part H) × ℕ
  unfolding part_read
  read_parts n [] ptr = (raise eof_error, [], ptr)
  read_parts n (p ∷ ps) zero =
      let (r, p') = part_read n p in
      let rest = read_parts n ps zero in
      elim r [
        | ok chunk ↦ (ok chunk, p' ∷ ps, 0)
        | raise eof_error ↦ (rest.0, p' ∷ rest.1, suc rest.2)
        | raise e ↦ (raise e, p' ∷ ps, 0)
      ]
  read_parts n (p ∷ ps) (suc k) = let rest = read_parts n ps k in (rest.0, p ∷ rest.1, suc rest.2)

  unfoldable pub read : ℕ → MultipartRequestBody H → Outcome Error Bytes × MultipartRequestBody H
  unfolding read_parts
  read n m = let (r, ps, k) = read_parts n m.parts m.ptr in (r, record m { parts = ps; ptr = k })
