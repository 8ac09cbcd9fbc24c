-- ===== src/Multipart/Parts.antt =====
-- What a part of a form holds, and that reading, rewinding and measuring it keep that.
use hiyori.Prelude.{
  ℕ, ◌<◌, ◌≡◌, refl, ap, sym, ◌∙◌, ◌⊎◌, inl, inr, some, [], ◌++◌, length, Bytes, arith,
  length-append, append_assoc,
}
use hiyori.Outcome.{Outcome, ok, raise}
use hiyori.Exceptions.{Error, eof_error}
use hiyori.Headers.{HeaderDict}
use hiyori.Stream.{Reads}
use hiyori.Bodies
use hiyori.Bodies.{BytesRequestBody, bytes_body, or_eof, io_read, io_seek_set, io_seek_end}
use hiyori.Bodies.Laws.{
  remaining, io_remaining, read-Reads, read-cases, or_eof-cases, or_eof-Reads, IsWhole,
  read-IsWhole, seek_front-IsWhole, remaining-seek_front,
}
use hiyori.Multipart.Field.{
  FileField, prefix, prefix_bytes, file_calc_len, file_seek_front, file_read,
}
use hiyori.Multipart.Form.{Part, bytes_part, file_part, part_calc_len, part_seek_front, part_read}

-- A stream in front of which an exhausted one stands.
pub Reads-nil :
    (n : ℕ) (x y b a : Bytes) (r : Outcome Error Bytes)
    → x ≡ []
    → y ≡ []
    → Reads n b r a
    → Reads n (x ++ b) r (y ++ a)
Reads-nil n x y b a r ex ey h = rw (ex, ey) h

module _ {H : Type 0} ⦃d : HeaderDict H⦄ where
  unfoldable pub file_remaining : FileField H → Bytes
  unfolding prefix
  file_remaining f = remaining (prefix f) ++ io_remaining f.fp

  -- A file field with `content` to send, at any point of reading.
  pub record FileHolds (content : Bytes) (f : FileField H) : Type 0 where
    pub ready : IsWhole (prefix_bytes f) (prefix f)
    pub whole : prefix_bytes f ++ f.fp.buf ≡ content

  file_read_end :
      (n : ℕ) (f : FileField H)
      → (Bodies.read n (prefix f)).0 ≡ raise eof_error
      → file_read n f ≡ (
        or_eof (io_read n f.fp).0,
        record f { raw_prefix = some (Bodies.read n (prefix f)).1; fp = (io_read n f.fp).1 },
      )
  unfolding file_read
  file_read_end n f e = rw (e, file_read)

  file_read_piece :
      (n : ℕ) (f : FileField H) (c : Bytes)
      → (Bodies.read n (prefix f)).0 ≡ ok c
      → file_read n f ≡ (ok c, record f { raw_prefix = some (Bodies.read n (prefix f)).1 })
  unfolding file_read
  file_read_piece n f c e = rw (e, file_read)

  file_read_split :
      (n : ℕ) (f : FileField H)
      → 0 < n
      → Reads n
          (remaining (prefix f))
          (Bodies.read n (prefix f)).0
          (remaining (Bodies.read n (prefix f)).1)
      → Reads n (file_remaining f) (file_read n f).0 (file_remaining (file_read n f).1)
  unfolding file_remaining
  file_read_split n f pos (inl (ended, before, after)) =
      rw (file_read_end n f ended) (Reads-nil n _ _ _ _ _ before after (or_eof-Reads n f.fp pos))
  file_read_split n f pos (inr (piece, r, some_bytes, short, cut)) =
      rw (file_read_piece n f piece r) (
        inr (
          piece,
          refl,
          some_bytes,
          short,
          sym (append_assoc piece (remaining (Bodies.read n (prefix f)).1) (io_remaining f.fp))
              ∙ ap (λ t. t ++ io_remaining f.fp) cut,
        ))

  pub file_read-Reads :
      (n : ℕ) (f : FileField H)
      → 0 < n
      → Reads n (file_remaining f) (file_read n f).0 (file_remaining (file_read n f).1)
  file_read-Reads n f pos = file_read_split n f pos (read-Reads n (prefix f) pos)

  module _ {content : Bytes} {f : FileField H} (h : FileHolds content f) where
    file_read-Holds : (n : ℕ) → FileHolds content (file_read n f).1
    unfolding file_read prefix prefix_bytes io_read
    file_read-Holds n = elim (read-cases n (prefix f)) [
      | inl e ↦
          rw (file_read_end n f e) (record { ready = read-IsWhole h.ready n; whole = h.whole })
      | inr (c, e) ↦
          rw (file_read_piece n f c e) (record { ready = read-IsWhole h.ready n; whole = h.whole })
    ]

    file_seek_front-Holds : FileHolds content (file_seek_front f).1
    unfolding file_seek_front prefix prefix_bytes
    file_seek_front-Holds = record { ready = seek_front-IsWhole h.ready; whole = h.whole }

    remaining-file_seek_front : file_remaining (file_seek_front f).1 ≡ content
    unfolding file_seek_front file_remaining io_seek_set
    remaining-file_seek_front = ap (λ t. t ++ f.fp.buf) (remaining-seek_front h.ready) ∙ h.whole

    file_calc_len-Holds : FileHolds content (file_calc_len f).1
    unfolding file_calc_len
    file_calc_len-Holds = record { ready = h.ready; whole = h.whole }

    file_calc_len-length : (file_calc_len f).0 ≡ ok (length content)
    unfolding file_calc_len io_seek_end
    file_calc_len-length =
        ap ok (
          omega
            (arith, h.ready.counted, ap length h.whole, length-append (prefix_bytes f) f.fp.buf))

  -- A part with `content` to send.
  abbrev pub PartHolds : Bytes → Part H → Type 0
  PartHolds content (bytes_part b) = IsWhole content b
  PartHolds content (file_part f) = FileHolds content f

  unfoldable pub part_remaining : Part H → Bytes
  unfolding file_remaining
  part_remaining (bytes_part b) = remaining b
  part_remaining (file_part f) = file_remaining f

  pub part_read-Reads :
      (n : ℕ) (p : Part H)
      → 0 < n
      → Reads n (part_remaining p) (part_read n p).0 (part_remaining (part_read n p).1)
  unfolding part_read part_remaining
  part_read-Reads n (bytes_part b) pos = read-Reads n b pos
  part_read-Reads n (file_part f) pos = file_read-Reads n f pos

  -- A part raises nothing but EOFError.
  pub part_read-cases :
      (n : ℕ) (p : Part H)
      → ((part_read n p).0 ≡ raise eof_error) ⊎ ((b : Bytes) × ((part_read n p).0 ≡ ok b))
  unfolding part_read
  part_read-cases n (bytes_part b) = read-cases n b
  part_read-cases n (file_part f) = elim (read-cases n (prefix f)) [
    | inl e ↦ rw (file_read_end n f e) (or_eof-cases (io_read n f.fp).0)
    | inr (c, e) ↦ rw (file_read_piece n f c e) (inr (c, refl))
  ]

  pub part_read-Holds :
      (n : ℕ) (content : Bytes) (p : Part H)
      → PartHolds content p
      → PartHolds content (part_read n p).1
  unfolding part_read
  part_read-Holds n content (bytes_part b) h = read-IsWhole h n
  part_read-Holds n content (file_part f) h = file_read-Holds h n

  pub part_seek_front-Holds :
      (content : Bytes) (p : Part H)
      → PartHolds content p
      → PartHolds content (part_seek_front p).1
        × (part_remaining (part_seek_front p).1 ≡ content)
        × ((part_seek_front p).0 ≡ ok tt)
  unfolding part_seek_front part_remaining
  part_seek_front-Holds content (bytes_part b) h =
      (seek_front-IsWhole h, remaining-seek_front h, unfold Bodies.seek_front in refl)
  part_seek_front-Holds content (file_part f) h =
      (file_seek_front-Holds h, remaining-file_seek_front h, unfold file_seek_front in refl)

  -- A part is measured by what it holds.
  pub part_calc_len-Holds :
      (content : Bytes) (p : Part H)
      → PartHolds content p
      → PartHolds content (part_calc_len p).1 × ((part_calc_len p).0 ≡ ok (length content))
  unfolding part_calc_len
  part_calc_len-Holds content (bytes_part b) h = unfold Bodies.calc_len in (h, ap ok h.counted)
  part_calc_len-Holds content (file_part f) h = (file_calc_len-Holds h, file_calc_len-length h)
