-- ===== src/Connection/Writes.antt =====
-- What an exchange writes of the request's body.
use hiyori.Prelude.{
  ℕ, zero, suc, ◌<◌, ◌≡◌, refl, ap, ◌∙◌, sym, ◌⊎◌, inl, inr, some, ◌++◌, length, Bytes, arith,
  length-append, append_assoc, append-nil,
}
use hiyori.Outcome.{Outcome, ok, raise, Outcome-cases}
use hiyori.Exceptions.{Error, eof_error}
use hiyori.Exec.{◌>>=◌, attempt}
use hiyori.Headers.{HeaderDict}
use hiyori.Stream.{Reads}
use hiyori.Bodies.{RequestBody}
use hiyori.Connection.Http.{HttpProtocol}
use hiyori.Connection.Send.{Exchange, write_body}

-- magichttp's writer, as documented: what is written is appended to the body that is sent, and
-- flushing sends nothing else. `sent` is what has been written.
pub record IsWriter {P H : Type 0} (http : HttpProtocol P H) (sent : P → Bytes) : Type 0 where
  pub appends :
      (chunk : Bytes) (p : P)
      → (http.write chunk p).0 ≡ ok tt
      → sent (http.write chunk p).1 ≡ sent p ++ chunk
  pub keeps : (p : P) → sent (http.flush p).1 ≡ sent p

module _ {P H B : Type 0} ⦃d : HeaderDict H⦄ (http : HttpProtocol P H) (body : RequestBody B)
    (sent : P → Bytes) (writer : IsWriter http sent) (remaining : B → Bytes)
    (reads : (n : ℕ) (b : B)
      → 0 < n
      → Reads n (remaining b) (body.read n b).0 (remaining (body.read n b).1)) where
  -- the state after a piece was read
  abbrev taken : Exchange P H B → Exchange P H B
  taken s = record s {
    request = record s.request { body = (body.read s.conn.chunk_size s.request.body).1 };
  }

  abbrev with : Exchange P H B → P → Exchange P H B
  with s p = record s { conn = record s.conn { protocol = some p } }

  write_end :
      (fuel : ℕ) (s : Exchange P H B)
      → (body.read s.conn.chunk_size s.request.body).0 ≡ raise eof_error
      → write_body http body (suc fuel) s ≡ (ok tt, taken s)
  unfolding write_body attempt ◌>>=◌
  write_end fuel s e = ground arith

  module _ (fuel : ℕ) (s : Exchange P H B) (p : P) (chunk : Bytes)
      (read : (body.read s.conn.chunk_size s.request.body).0 ≡ ok chunk)
      (held : s.conn.protocol ≡ some p) where
    write_piece :
        (http.write chunk p).0 ≡ ok tt
        → (http.flush (http.write chunk p).1).0 ≡ ok tt
        → write_body http body (suc fuel) s
          ≡ write_body http body fuel (with (taken s) (http.flush (http.write chunk p).1).1)
    unfolding write_body attempt ◌>>=◌
    write_piece w f = ground arith

    write_refused :
        (e : Error)
        → (http.write chunk p).0 ≡ raise e
        → (write_body http body (suc fuel) s).0 ≡ raise e
    unfolding write_body attempt ◌>>=◌
    write_refused e w = ground arith

    flush_refused :
        (e : Error)
        → (http.write chunk p).0 ≡ ok tt
        → (http.flush (http.write chunk p).1).0 ≡ raise e
        → (write_body http body (suc fuel) s).0 ≡ raise e
    unfolding write_body attempt ◌>>=◌
    flush_refused e w f = ground arith

  -- The whole body is sent behind what was sent before, or the writer has raised what is raised.
  abbrev pub Written : P → Bytes → Outcome Error (Unit {0}) × Exchange P H B → Type 0
  Written p rest x =
      ((x.0 ≡ ok tt) × ((p' : P) × (x.1.conn.protocol ≡ some p') × (sent p' ≡ sent p ++ rest)))
      ⊎ ((e : Error) × (x.0 ≡ raise e)
          × (((p' : P) × (chunk : Bytes) × ((http.write chunk p').0 ≡ raise e))
              ⊎ ((p' : P) × ((http.flush p').0 ≡ raise e))))

  -- A piece that was read and written stands behind what was sent before.
  piece_sent :
      (s : Exchange P H B) (p : P) (piece : Bytes)
      → piece ++ remaining (taken s).request.body ≡ remaining s.request.body
      → (http.write piece p).0 ≡ ok tt
      → sent (http.flush (http.write piece p).1).1 ++ remaining (taken s).request.body
        ≡ sent p ++ remaining s.request.body
  piece_sent s p piece cut w =
      ap (λ t. t ++ remaining (taken s).request.body)
        (writer.keeps (http.write piece p).1 ∙ writer.appends piece p w)
      ∙ append_assoc (sent p) piece (remaining (taken s).request.body)
      ∙ ap (λ t. sent p ++ t) cut

  -- The rest of the loop, seen from before the piece.
  Written-piece :
      (p q : P) (a b : Bytes) (r : Outcome Error (Unit {0}) × Exchange P H B)
      → sent q ++ a ≡ sent p ++ b
      → Written q a r
      → Written p b r
  Written-piece p q a b r e (inl (done, (p', held, all))) = inl (done, (p', held, all ∙ e))
  Written-piece p q a b r e (inr failed) = inr failed

  write_body_step :
      (fuel : ℕ) (s : Exchange P H B) (p : P)
      → s.conn.protocol ≡ some p
      → Reads s.conn.chunk_size
          (remaining s.request.body)
          (body.read s.conn.chunk_size s.request.body).0
          (remaining (taken s).request.body)
      → ((q : P)
          → length (remaining (taken s).request.body) < length (remaining s.request.body)
          → Written q
              (remaining (taken s).request.body)
              (write_body http body fuel (with (taken s) q)))
      → Written p (remaining s.request.body) (write_body http body (suc fuel) s)
  write_body_step fuel s p held (inl (ended, before, _)) ih =
      rw (write_end fuel s ended) (inl (refl, (p, held, rw before (sym (append-nil (sent p))))))
  write_body_step fuel s p held (inr (piece, r, some_bytes, short, cut)) ih =
      elim (Outcome-cases (http.write piece p).0) [
        | inr (e, w) ↦ inr (e, write_refused fuel s p piece r held e w, inl (p, piece, w))
        | inl (_, w) ↦ elim (Outcome-cases (http.flush (http.write piece p).1).0) [
          | inr (e, f) ↦
              inr (e, flush_refused fuel s p piece r held e w f, inr ((http.write piece p).1, f))
          | inl (_, f) ↦ rw (write_piece fuel s p piece r held w f) (
              Written-piece p (http.flush (http.write piece p).1).1 _ _
                (write_body http body fuel (with (taken s) (http.flush (http.write piece p).1).1))
                (piece_sent s p piece cut w)
                (ih _ (
                  omega (
                    arith,
                    ap length cut,
                    length-append piece (remaining (taken s).request.body),
                  ))))
        ]
      ]

  -- With a writer and a body that keep their contracts, a positive chunk size, a protocol, and
  -- fuel above the number of bytes left in the request's body, writing it ends: either the whole
  -- of it is sent, behind what was sent before, or an exception of the writer comes out.
  pub write_body-Written :
      (fuel : ℕ) (s : Exchange P H B) (p : P)
      → s.conn.protocol ≡ some p
      → 0 < s.conn.chunk_size
      → length (remaining s.request.body) < fuel
      → Written p (remaining s.request.body) (write_body http body fuel s)
  write_body-Written zero s p held pos h = absurd (omega arith)
  write_body-Written (suc fuel) s p held pos h =
      write_body_step fuel s p held (reads s.conn.chunk_size s.request.body pos)
        (λ q less. write_body-Written fuel (with (taken s) q) q refl pos (omega arith))
