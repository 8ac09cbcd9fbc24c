-- ===== src/Multipart/Measured.antt =====
-- A form of hiyori/multipart.py that was rewound and then measured is still whole.
use hiyori.Prelude.{
  ℕ, ◌+◌, ◌≡◌, refl, ap, ◌∙◌, inl, inr, Option-cases, List, [], ◌∷◌, ◌++◌, concat, length, Bytes,
  zero,
}
use mathlib.Core.Path.{ap₂}
use hiyori.Outcome.{ok}
use hiyori.Headers.{HeaderDict}
use hiyori.Bodies
use hiyori.Bodies.{RequestBody, io_seek_set, io_seek_end}
use hiyori.Multipart.Field.{prefix, file_calc_len, file_seek_front}
use hiyori.Multipart.Form.{
  Part, bytes_part, file_part, part_calc_len, part_seek_front, MultipartRequestBody, calc_parts,
  calc_len, seek_parts, seek_front, read,
}
use hiyori.Multipart.Parts.{
  part_remaining, file_remaining, part_seek_front-Holds, part_calc_len-Holds,
}
use hiyori.Multipart.Content.{
  PartsHold, parts_remaining, FormHolds, form_remaining, seek_front-FormHolds, calc_len-FormHolds,
  calc_len_fresh, calc_len_cached, calc_parts-Hold,
}

module _ {H : Type 0} ⦃d : HeaderDict H⦄ where
  -- Measuring a part that was rewound leaves it so.
  part_calc_len-rewound :
      (p : Part H)
      → part_remaining (part_calc_len (part_seek_front p).1).1
        ≡ part_remaining (part_seek_front p).1
  unfolding part_calc_len part_seek_front part_remaining file_remaining file_calc_len
      file_seek_front prefix io_seek_set io_seek_end Bodies.calc_len
  part_calc_len-rewound (bytes_part b) = refl
  part_calc_len-rewound (file_part f) = refl

  seek_parts_cons :
      (p : Part H) (ps : List (Part H))
      → (part_seek_front p).0 ≡ ok tt
      → (seek_parts (p ∷ ps)).1 ≡ (part_seek_front p).1 ∷ (seek_parts ps).1
  unfolding seek_parts
  seek_parts_cons p ps done = rw (seek_parts, done) refl

  calc_parts_cons :
      (acc k : ℕ) (p : Part H) (ps : List (Part H))
      → (part_calc_len p).0 ≡ ok k
      → (calc_parts acc (p ∷ ps)).1 ≡ (part_calc_len p).1 ∷ (calc_parts (acc + k) ps).1
  unfolding calc_parts
  calc_parts_cons acc k p ps len = rw (calc_parts, len) refl

  calc_parts-rewound :
      (acc : ℕ) (cs : List Bytes) (ps : List (Part H))
      → PartsHold cs ps
      → parts_remaining (calc_parts acc (seek_parts ps).1).1 zero ≡ concat cs
  unfolding seek_parts calc_parts
  calc_parts-rewound acc [] [] h = refl
  calc_parts-rewound acc [] (p ∷ ps) h = absurd h
  calc_parts-rewound acc (c ∷ cs) [] h = absurd h
  calc_parts-rewound acc (c ∷ cs) (p ∷ ps) (h, hs) =
      let (part, all, done) = part_seek_front-Holds c p h in
      let (_, len) = part_calc_len-Holds c (part_seek_front p).1 part in
      ap (λ x. parts_remaining (calc_parts acc x).1 zero) (seek_parts_cons p ps done)
      ∙ ap (λ x. parts_remaining x zero)
          (calc_parts_cons acc (length c) (part_seek_front p).1 (seek_parts ps).1 len)
      ∙ ap₂ ◌++◌ (part_calc_len-rewound p ∙ all) (calc_parts-rewound (acc + length c) cs ps hs)

  -- The body as a class of bodies.
  abbrev pub form_class : RequestBody (MultipartRequestBody H)
  form_class = record { calc_len = calc_len; seek_front = seek_front; read = read }

  -- Rewound and measured, a form has all of its bytes to send, and their number is its length.
  pub calc_len-rewound :
      {cs : List Bytes} (m : MultipartRequestBody H)
      → FormHolds cs m
      → (form_remaining (calc_len (seek_front m).1).1 ≡ concat cs)
        × ((calc_len (seek_front m).1).0 ≡ ok (length (concat cs)))
  unfolding seek_front
  calc_len-rewound {cs} m h =
      let (holds, rest, _) = seek_front-FormHolds h in
      let (_, sum) = calc_parts-Hold 0 cs (seek_front m).1.parts holds.hold in
      (
        elim (Option-cases m.body_len) [
          | inl e ↦
              ap (λ x. form_remaining x.1) (calc_len_fresh (seek_front m).1 _ e sum)
              ∙ calc_parts-rewound 0 cs m.parts h.hold
          | inr (n, e) ↦ ap (λ x. form_remaining x.1) (calc_len_cached (seek_front m).1 n e) ∙ rest
        ],
        (calc_len-FormHolds holds).1,
      )
