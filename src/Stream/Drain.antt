-- ===== src/Stream/Drain.antt =====
-- Reading a body to its end, as `HttpConnection.send_request` and the tests do.
use hiyori.Prelude.{
  ℕ, zero, suc, ◌<◌, ◌≡◌, ap, sym, ◌∙◌, inl, inr, List, [], ◌∷◌, ◌++◌, length, concat, Bytes,
  Option, none, some, arith, length-append,
}
use hiyori.Outcome.{ok, raise}
use hiyori.Exceptions.{Error, eof_error}
use hiyori.Stream.{Stream, Reads}

-- A piece in front of what the rest of the loop gives.
abbrev pub prepend : {S : Type 0} → Bytes → Option (List Bytes × S) → Option (List Bytes × S)
prepend piece none = none
prepend piece (some (pieces, s)) = some (piece ∷ pieces, s)

-- `except EOFError: break`
abbrev pub at_end : {S : Type 0} → Error → S → Option (List Bytes × S)
at_end eof_error s = some ([], s)
at_end _ s = none

module _ {S : Type 0} (stream : Stream S) where
  -- `while True: try: read(n) except EOFError: break`: the pieces, and the body afterwards. `none`
  -- stands for fuel that ran out or for another exception.
  unfoldable pub drain : ℕ → ℕ → S → Option (List Bytes × S)
  drain zero n s = none
  drain (suc fuel) n s =
      let (r, s') = stream.read n s in
      elim r [ ok piece ↦ prepend piece (drain fuel n s') | raise e ↦ at_end e s' ]

  abbrev pub Drains : ℕ → ℕ → S → Type 0
  Drains fuel n s =
      (pieces : List Bytes) × (s' : S) × (drain fuel n s ≡ some (pieces, s'))
      × (concat pieces ≡ stream.remaining s)
      × (stream.remaining s' ≡ [])

  drain_step :
      (fuel n : ℕ) (s : S)
      → Reads n (stream.remaining s) (stream.read n s).0 (stream.remaining (stream.read n s).1)
      → ((t : S) → length (stream.remaining t) < fuel → Drains fuel n t)
      → length (stream.remaining s) < suc fuel
      → Drains (suc fuel) n s
  unfolding drain
  drain_step fuel n s (inl (ended, before, after)) ih h =
      ([], (stream.read n s).1, rw (ended, drain), sym before, after)
  drain_step fuel n s (inr (piece, r, some_bytes, short, cut)) ih h =
      let (pieces, s', run, whole, after) = ih (stream.read n s).1 (
        omega (arith, ap length cut, length-append piece (stream.remaining (stream.read n s).1))) in
      (
        piece ∷ pieces,
        s',
        rw (r, drain) (ap (prepend piece) run),
        ap (λ t. piece ++ t) whole ∙ cut,
        after,
      )

  -- Reading in pieces of any positive size ends after at most one call more than there are bytes
  -- left. The pieces make up exactly what was left, and nothing is left then.
  pub drain_complete :
      (fuel n : ℕ) (s : S) → 0 < n → length (stream.remaining s) < fuel → Drains fuel n s
  drain_complete zero n s pos h = absurd (omega arith)
  drain_complete (suc fuel) n s pos h =
      drain_step fuel n s (stream.reads n s pos) (λ t small. drain_complete fuel n t pos small) h
