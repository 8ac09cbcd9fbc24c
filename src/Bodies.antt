-- ===== src/Bodies.antt =====
-- hiyori/bodies.py: BytesRequestBody, and BaseRequestBody as a record of operations.
pub mod Laws
use hiyori.Prelude.{
  ℕ, zero, suc, ◌+◌, ◌≡◌, Bool, true, false, List, [], ◌∷◌, length, take, drop, Bytes,
}
use hiyori.Outcome.{Outcome, ok, raise}
use hiyori.Exceptions.{Error, eof_error}

-- io.BytesIO, and any other seekable BinaryIO that holds all of its bytes.
pub record BytesIo : Type 0 where
  pub buf : Bytes
  pub pos : ℕ

-- `f.read(n)`, for n ≥ 0
unfoldable pub io_read : ℕ → BytesIo → Bytes × BytesIo
io_read n f =
    let chunk = take n (drop f.pos f.buf) in (chunk, record f { pos = f.pos + length chunk })

-- `f.seek(0, io.SEEK_SET)`
unfoldable pub io_seek_set : BytesIo → BytesIo
io_seek_set f = record f { pos = 0 }

-- `f.seek(0, io.SEEK_END)`; `f.tell()` is then `pos`
unfoldable pub io_seek_end : BytesIo → BytesIo
io_seek_end f = record f { pos = length f.buf }

pub record BytesRequestBody : Type 0 where
  pub len : ℕ
  pub io : BytesIo

-- BytesRequestBody(buf)
unfoldable pub bytes_body : Bytes → BytesRequestBody
unfolding io_seek_set
bytes_body buf = record { len = length buf; io = io_seek_set (record { buf = buf; pos = 0 }) }

unfoldable pub calc_len : BytesRequestBody → Outcome Error ℕ × BytesRequestBody
calc_len b = (ok b.len, b)

unfoldable pub seek_front : BytesRequestBody → Outcome Error (Unit {0}) × BytesRequestBody
unfolding io_seek_set
seek_front b = (ok tt, record b { io = io_seek_set b.io })

-- `if not data: raise EOFError`
abbrev pub or_eof : Bytes → Outcome Error Bytes
or_eof [] = raise eof_error
or_eof (c ∷ cs) = ok (c ∷ cs)

unfoldable pub read : ℕ → BytesRequestBody → Outcome Error Bytes × BytesRequestBody
unfolding io_read
read n b = let (chunk, io) = io_read n b.io in (or_eof chunk, record b { io = io })

-- BaseRequestBody: the methods by which the client sends a body. A class that does not override
-- `calc_len` or `seek_front` raises NotImplementedError there.
pub record RequestBody (B : Type 0) : Type 0 where
  pub calc_len : B → Outcome Error ℕ × B
  pub seek_front : B → Outcome Error (Unit {0}) × B
  pub read : ℕ → B → Outcome Error Bytes × B
