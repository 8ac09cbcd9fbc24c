-- ===== src/Bodies/Laws.antt =====
-- BytesRequestBody and _EmptyRequestBody meet the contract of `read`; lengths and rewinding.
use hiyori.Prelude.{
  ℕ, ◌<◌, ◌≡◌, refl, ap, sym, ◌∙◌, inl, inr, ◌⊎◌, [], ◌∷◌, ◌++◌, length, Bytes, take, drop, arith,
  length-take-le, take-eq-nil, take-append-drop_at,
}
use hiyori.Outcome.{ok, raise}
use hiyori.Exceptions.{eof_error}
use hiyori.Stream.{Stream, Reads}
use hiyori.Bodies.{BytesIo, io_read, BytesRequestBody, bytes_body, seek_front, or_eof, read}

abbrev pub io_remaining : BytesIo → Bytes
io_remaining f = drop f.pos f.buf

abbrev pub remaining : BytesRequestBody → Bytes
remaining b = io_remaining b.io

-- A piece cut from a stream of bytes, or its end.
module _ (n : ℕ) (f : BytesIo) (pos : 0 < n) where
  cut_at :
      (c : Bytes) → take n (io_remaining f) ≡ c → c ++ io_remaining (io_read n f).1 ≡ io_remaining f
  unfolding io_read
  cut_at c e =
      ap (λ t. t ++ io_remaining (io_read n f).1) (sym e) ∙ take-append-drop_at f.pos n f.buf

  cut-Reads :
      (c : Bytes)
      → take n (io_remaining f) ≡ c
      → Reads n (io_remaining f) (or_eof (io_read n f).0) (io_remaining (io_read n f).1)
  unfolding io_read
  cut-Reads [] e =
      let nil = take-eq-nil n (io_remaining f) pos e in inl (rw e, nil, cut_at [] e ∙ nil)
  cut-Reads (x ∷ c) e = inr (
    x ∷ c,
    rw e,
    omega arith,
    omega (arith, ap length e, length-take-le n (io_remaining f)),
    cut_at (x ∷ c) e,
  )

  pub or_eof-Reads :
      Reads n (io_remaining f) (or_eof (io_read n f).0) (io_remaining (io_read n f).1)
  or_eof-Reads = cut-Reads (take n (io_remaining f)) refl

pub read-Reads :
    (n : ℕ) (b : BytesRequestBody)
    → 0 < n
    → Reads n (remaining b) (read n b).0 (remaining (read n b).1)
unfolding read
read-Reads n b pos = or_eof-Reads n b.io pos

pub or_eof-cases : (c : Bytes) → (or_eof c ≡ raise eof_error) ⊎ ((p : Bytes) × (or_eof c ≡ ok p))
or_eof-cases [] = inl refl
or_eof-cases (x ∷ c) = inr (x ∷ c, refl)

-- A body of bytes raises nothing but EOFError.
pub read-cases :
    (n : ℕ) (b : BytesRequestBody)
    → ((read n b).0 ≡ raise eof_error) ⊎ ((p : Bytes) × ((read n b).0 ≡ ok p))
unfolding read
read-cases n b = or_eof-cases (io_read n b.io).0

abbrev pub bytes_stream : Stream BytesRequestBody
bytes_stream = record { read = read; remaining = remaining; reads = read-Reads }

-- A body that was built from bytes: its length is right, whatever was read since.
pub record IsWhole (content : Bytes) (b : BytesRequestBody) : Type 0 where
  pub holds : b.io.buf ≡ content
  pub counted : b.len ≡ length content

pub bytes_body-IsWhole : (buf : Bytes) → IsWhole buf (bytes_body buf)
unfolding bytes_body
bytes_body-IsWhole buf = record { holds = refl; counted = refl }

module _ {content : Bytes} {b : BytesRequestBody} (w : IsWhole content b) where
  pub read-IsWhole : (n : ℕ) → IsWhole content (read n b).1
  unfolding read io_read
  read-IsWhole n = record { holds = w.holds; counted = w.counted }

  pub seek_front-IsWhole : IsWhole content (seek_front b).1
  unfolding seek_front
  seek_front-IsWhole = record { holds = w.holds; counted = w.counted }

  pub remaining-seek_front : remaining (seek_front b).1 ≡ content
  unfolding seek_front
  remaining-seek_front = w.holds

pub remaining-bytes_body : (buf : Bytes) → remaining (bytes_body buf) ≡ buf
unfolding bytes_body
remaining-bytes_body buf = refl
