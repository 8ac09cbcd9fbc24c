-- ===== src/Multipart/Content.antt =====
-- The body of a form: reading, rewinding and measuring it, whatever has been read before.
use hiyori.Prelude.{
  ℕ, zero, suc, ◌+◌, ◌<◌, ◌≡◌, refl, ap, ◌⊎◌, sym, ◌∙◌, inl, inr, none, some, List, [], ◌∷◌, ◌++◌,
  length, concat, Bytes, arith, length-append, append_assoc,
}
use mathlib.Core.Path.{ap₂}
use hiyori.Outcome.{ok, raise}
use hiyori.Exceptions.{eof_error}
use hiyori.Headers.{HeaderDict}
use hiyori.Stream.{Stream, Reads}
use hiyori.Multipart.Form.{
  Part, MultipartRequestBody, part_read, calc_parts, seek_parts, read_parts, calc_len, seek_front,
  read,
}
use hiyori.Multipart.Parts.{
  PartHolds, part_remaining, Reads-nil, part_read-Reads, part_read-Holds, part_read-cases,
  part_seek_front-Holds, part_calc_len-Holds,
}

module _ {H : Type 0} ⦃d : HeaderDict H⦄ where
  -- The bytes that are left from part `ptr` on.
  abbrev pub parts_remaining : List (Part H) → ℕ → Bytes
  parts_remaining [] k = []
  parts_remaining (p ∷ ps) zero = part_remaining p ++ parts_remaining ps zero
  parts_remaining (p ∷ ps) (suc k) = parts_remaining ps k

  abbrev pub PartsHold : List Bytes → List (Part H) → Type 0
  PartsHold [] [] = Unit
  PartsHold (c ∷ cs) (p ∷ ps) = PartHolds c p × PartsHold cs ps
  PartsHold _ _ = ⊥

  read_parts_end :
      (n : ℕ) (p : Part H) (ps : List (Part H))
      → (part_read n p).0 ≡ raise eof_error
      → read_parts n (p ∷ ps) zero ≡ (
        (read_parts n ps zero).0,
        (part_read n p).1 ∷ (read_parts n ps zero).1,
        suc (read_parts n ps zero).2,
      )
  unfolding read_parts
  read_parts_end n p ps e = rw (e, read_parts)

  read_parts_piece :
      (n : ℕ) (p : Part H) (ps : List (Part H)) (c : Bytes)
      → (part_read n p).0 ≡ ok c
      → read_parts n (p ∷ ps) zero ≡ (ok c, (part_read n p).1 ∷ ps, 0)
  unfolding read_parts
  read_parts_piece n p ps c e = rw (e, read_parts)

  read_parts_split :
      (n : ℕ) (p : Part H) (ps : List (Part H))
      → Reads n (part_remaining p) (part_read n p).0 (part_remaining (part_read n p).1)
      → Reads n
          (parts_remaining ps zero)
          (read_parts n ps zero).0
          (parts_remaining (read_parts n ps zero).1 (read_parts n ps zero).2)
      → Reads n
          (parts_remaining (p ∷ ps) zero)
          (read_parts n (p ∷ ps) zero).0
          (parts_remaining (read_parts n (p ∷ ps) zero).1 (read_parts n (p ∷ ps) zero).2)
  read_parts_split n p ps (inl (ended, before, after)) reads =
      rw (read_parts_end n p ps ended) (Reads-nil n _ [] _ _ _ before refl reads)
  read_parts_split n p ps (inr (piece, r, some_bytes, short, cut)) _ =
      rw (read_parts_piece n p ps piece r) (
        inr (
          piece,
          refl,
          some_bytes,
          short,
          sym (append_assoc piece (part_remaining (part_read n p).1) (parts_remaining ps zero))
              ∙ ap (λ t. t ++ parts_remaining ps zero) cut,
        ))

  -- One call of `read` from part `ptr` on meets the contract.
  read_parts-Reads :
      (n : ℕ) (ps : List (Part H)) (k : ℕ)
      → 0 < n
      → Reads n
          (parts_remaining ps k)
          (read_parts n ps k).0
          (parts_remaining (read_parts n ps k).1 (read_parts n ps k).2)
  unfolding read_parts
  read_parts-Reads n [] k pos = inl (refl, refl, refl)
  read_parts-Reads n (p ∷ ps) zero pos =
      read_parts_split n p ps (part_read-Reads n p pos) (read_parts-Reads n ps zero pos)
  read_parts-Reads n (p ∷ ps) (suc k) pos = read_parts-Reads n ps k pos

  read_parts-Hold_at :
      (n : ℕ) (c : Bytes) (cs : List Bytes) (p : Part H) (ps : List (Part H))
      → PartHolds c p × PartsHold cs ps
      → PartsHold cs (read_parts n ps zero).1
      → ((part_read n p).0 ≡ raise eof_error) ⊎ ((b : Bytes) × ((part_read n p).0 ≡ ok b))
      → PartsHold (c ∷ cs) (read_parts n (p ∷ ps) zero).1
  read_parts-Hold_at n c cs p ps h rest (inl e) =
      rw (read_parts_end n p ps e) (part_read-Holds n c p h.0, rest)
  read_parts-Hold_at n c cs p ps h rest (inr (b, e)) =
      rw (read_parts_piece n p ps b e) (part_read-Holds n c p h.0, h.1)

  read_parts-Hold :
      (n : ℕ) (cs : List Bytes) (ps : List (Part H)) (k : ℕ)
      → PartsHold cs ps
      → PartsHold cs (read_parts n ps k).1
  unfolding read_parts
  read_parts-Hold n [] [] k h = tt
  read_parts-Hold n [] (p ∷ ps) k h = absurd h
  read_parts-Hold n (c ∷ cs) [] k h = absurd h
  read_parts-Hold n (c ∷ cs) (p ∷ ps) zero h =
      read_parts-Hold_at n c cs p ps h (read_parts-Hold n cs ps zero h.1) (part_read-cases n p)
  read_parts-Hold n (c ∷ cs) (p ∷ ps) (suc k) h = (h.0, read_parts-Hold n cs ps k h.1)

  seek_parts-Hold :
      (cs : List Bytes) (ps : List (Part H))
      → PartsHold cs ps
      → PartsHold cs (seek_parts ps).1
        × (parts_remaining (seek_parts ps).1 zero ≡ concat cs)
        × ((seek_parts ps).0 ≡ ok tt)
  unfolding seek_parts
  seek_parts-Hold [] [] h = (tt, refl, refl)
  seek_parts-Hold [] (p ∷ ps) h = absurd h
  seek_parts-Hold (c ∷ cs) [] h = absurd h
  seek_parts-Hold (c ∷ cs) (p ∷ ps) h =
      let (part, all, done) = part_seek_front-Holds c p h.0 in
      let (parts, rest, end) = seek_parts-Hold cs ps h.1 in
      rw (done, seek_parts) ((part, parts), ap₂ ◌++◌ all rest, end)

  pub calc_parts-Hold :
      (acc : ℕ) (cs : List Bytes) (ps : List (Part H))
      → PartsHold cs ps
      → PartsHold cs (calc_parts acc ps).1 × ((calc_parts acc ps).0 ≡ ok (acc + length (concat cs)))
  unfolding calc_parts
  calc_parts-Hold acc [] [] h = (tt, ap ok (omega arith))
  calc_parts-Hold acc [] (p ∷ ps) h = absurd h
  calc_parts-Hold acc (c ∷ cs) [] h = absurd h
  calc_parts-Hold acc (c ∷ cs) (p ∷ ps) h =
      let (part, len) = part_calc_len-Holds c p h.0 in
      let (parts, sum) = calc_parts-Hold (acc + length c) cs ps h.1 in
      rw (len, calc_parts) ((part, parts), sum ∙ ap ok (omega (arith, length-append c (concat cs))))

  -- `cs` are the bytes of the parts; a length that was computed is kept.
  pub record FormHolds (cs : List Bytes) (m : MultipartRequestBody H) : Type 0 where
    pub hold : PartsHold cs m.parts
    pub cached : (m.body_len ≡ none) ⊎ (m.body_len ≡ some (length (concat cs)))

  abbrev pub form_remaining : MultipartRequestBody H → Bytes
  form_remaining m = parts_remaining m.parts m.ptr

  pub form_read-Reads :
      (n : ℕ) (m : MultipartRequestBody H)
      → 0 < n
      → Reads n (form_remaining m) (read n m).0 (form_remaining (read n m).1)
  unfolding read
  form_read-Reads n m pos = read_parts-Reads n m.parts m.ptr pos

  abbrev pub form_stream : Stream (MultipartRequestBody H)
  form_stream = record { read = read; remaining = form_remaining; reads = form_read-Reads }

  pub calc_len_cached :
      (m : MultipartRequestBody H) (n : ℕ) → m.body_len ≡ some n → calc_len m ≡ (ok n, m)
  unfolding calc_len
  calc_len_cached m n e = ground arith

  pub calc_len_fresh :
      (m : MultipartRequestBody H) (n : ℕ)
      → m.body_len ≡ none
      → (calc_parts 0 m.parts).0 ≡ ok n
      → calc_len m ≡ (ok n, record m { parts = (calc_parts 0 m.parts).1; body_len = some n })
  unfolding calc_len
  calc_len_fresh m n e r = ground arith

  module _ {cs : List Bytes} {m : MultipartRequestBody H} (h : FormHolds cs m) where
    pub read-FormHolds : (n : ℕ) → FormHolds cs (read n m).1
    unfolding read
    read-FormHolds n = record {
      hold = read_parts-Hold n cs m.parts m.ptr h.hold;
      cached = h.cached;
    }

    pub seek_front-FormHolds :
        FormHolds cs (seek_front m).1
        × (form_remaining (seek_front m).1 ≡ concat cs)
        × ((seek_front m).0 ≡ ok tt)
    unfolding seek_front
    seek_front-FormHolds =
        let (hold, rest, done) = seek_parts-Hold cs m.parts h.hold in
        (record { hold = hold; cached = h.cached }, rest, done)

    pub calc_len-FormHolds :
        FormHolds cs (calc_len m).1 × ((calc_len m).0 ≡ ok (length (concat cs)))
    calc_len-FormHolds = measure h.cached
      where
        measure :
            (m.body_len ≡ none) ⊎ (m.body_len ≡ some (length (concat cs)))
            → FormHolds cs (calc_len m).1 × ((calc_len m).0 ≡ ok (length (concat cs)))
        measure (inl e) =
            let (parts, sum) = calc_parts-Hold 0 cs m.parts h.hold in
            rw (calc_len_fresh m (length (concat cs)) e (sum ∙ ap ok (omega arith)))
              (record { hold = parts; cached = inr refl }, refl)
        measure (inr e) = rw (calc_len_cached m (length (concat cs)) e) (h, refl)
